-- ===== src/Adapter/Sections.antt =====
-- adapter.go, `FromSyntax`: which lines go to which section.
use ikemen_devtools.Prelude.{
  ℕ, ◌≡◌, refl, ap, ◌∙◌, Option, none, some, List, [], ◌∷◌, ◌++◌, append-nil, append_assoc, length,
  get_elem?, if◌then◌else◌, Bool-cases, inl, inr,
}
use ikemen_devtools.Prelude.Text.{Bytes, bytes_eq}
use ikemen_devtools.Ir.Documents.{SourceLine, DocumentSection}
use ikemen_devtools.FilePath.{trim_space}
use ikemen_devtools.Syntax.Tokens.{
  TokenKind, token_section, token_key_value, token_comment, token_blank, token_malformed, Token,
  section_kind,
}
use ikemen_devtools.Adapter.{Builder, append_line, source_line_of}

-- The line that a token leaves in its section, if any.
unfoldable pub line_of : TokenKind → Token → List SourceLine
line_of token_key_value t = if bytes_eq t.key [] then [] else source_line_of token_key_value t ∷ []
line_of token_comment t = source_line_of token_comment t ∷ []
line_of token_malformed t = source_line_of token_malformed t ∷ []
line_of token_blank t = []
line_of token_section t = []

pub record Grouped : Type 0 where
  -- The lines in front of the first header.
  pub leading : List SourceLine
  pub sections : List DocumentSection

module _ (wide_lower : Bytes → Bytes) where
  abbrev headed : Token → Grouped → List DocumentSection
  headed t g =
      record {
        header = trim_space t.text;
        kind = section_kind wide_lower (trim_space t.text);
        span = t.span;
        lines = g.leading;
      }
      ∷ g.sections

  abbrev pub add_to_group : TokenKind → Token → Grouped → Grouped
  add_to_group token_section t g = record {
    leading = [];
    sections = if bytes_eq (trim_space t.text) [] then g.sections else headed t g;
  }
  add_to_group k t g = record { leading = line_of k t ++ g.leading; sections = g.sections }

  -- A description of the sections without the loop's state: a header takes the lines up to the next one.
  unfoldable pub group : List Token → Grouped
  group [] = record { leading = []; sections = [] }
  group (t ∷ ts) = add_to_group t.kind t (group ts)

-- The sections so far, the open one apart.
pub record Opened : Type 0 where
  pub done : List DocumentSection
  pub last : Option DocumentSection

abbrev pub with_lines : DocumentSection → List SourceLine → DocumentSection
with_lines s ls = record s { lines = s.lines ++ ls }

abbrev pub extend_last : Option DocumentSection → List SourceLine → Option DocumentSection
extend_last none ls = none
extend_last (some s) ls = some (with_lines s ls)

abbrev pub to_list : Option DocumentSection → List DocumentSection
to_list none = []
to_list (some s) = s ∷ []

abbrev pub all : Opened → List DocumentSection
all o = o.done ++ to_list o.last

abbrev pub index_of_open : List DocumentSection → Option DocumentSection → Option ℕ
index_of_open done none = none
index_of_open done (some s) = some (length done)

abbrev pub new_section : (Bytes → Bytes) → Token → DocumentSection
new_section wide_lower t = record {
  header = trim_space t.text;
  kind = section_kind wide_lower (trim_space t.text);
  span = t.span;
  lines = [];
}

-- What a token does to the sections.
unfoldable pub place : (Bytes → Bytes) → TokenKind → Token → Opened → Opened
place wide_lower token_section t o = record {
  done = all o;
  last = if bytes_eq (trim_space t.text) [] then none else some (new_section wide_lower t);
}
place wide_lower k t o = record { done = o.done; last = extend_last o.last (line_of k t) }

unfoldable pub place_all : (Bytes → Bytes) → List Token → Opened → Opened
place_all wide_lower [] o = o
place_all wide_lower (t ∷ ts) o = place_all wide_lower ts (place wide_lower t.kind t o)

-- The builder stands for these sections.
pub record Stands (b : Builder) (o : Opened) : Type 0 where
  pub sections_eq : b.sections ≡ all o
  pub current_eq : b.current ≡ index_of_open o.done o.last

pub append_line-last :
    (done : List DocumentSection) (s : DocumentSection) (l : SourceLine)
    → append_line (done ++ s ∷ []) (length done) l ≡ some (done ++ with_lines s (l ∷ []) ∷ [])
unfolding append_line
append_line-last [] s l = refl
append_line-last (x ∷ done) s l = rw (append_line-last done s l) refl

pub get_elem?-last :
    (done : List DocumentSection) (s : DocumentSection)
    → get_elem? (done ++ s ∷ []) (length done) ≡ some s
get_elem?-last [] s = refl
get_elem?-last (x ∷ done) s = get_elem?-last done s

-- Placing tokens one by one is grouping them.
abbrev joined : Opened → Grouped → List DocumentSection
joined o g = o.done ++ (to_list (extend_last o.last g.leading) ++ g.sections)

pub extend_last-nil : (s : Option DocumentSection) → extend_last s [] ≡ s
extend_last-nil none = refl
extend_last-nil (some s) = ap (λ ls. some (record s { lines = ls })) (append-nil s.lines)

extend_last-append :
    (s : Option DocumentSection) (ls ms : List SourceLine)
    → extend_last (extend_last s ls) ms ≡ extend_last s (ls ++ ms)
extend_last-append none ls ms = refl
extend_last-append (some s) ls ms =
    ap (λ ls. some (record s { lines = ls })) (append_assoc s.lines ls ms)

joined-nil :
    (o : Opened) (ss : List DocumentSection)
    → joined o (record { leading = []; sections = ss }) ≡ all o ++ ss
joined-nil o ss = rw (extend_last-nil o.last, append_assoc o.done (to_list o.last) ss) refl

module _ (wide_lower : Bytes → Bytes) where
  joined-place :
      (k : TokenKind) (t : Token) (o : Opened) (g : Grouped)
      → joined (place wide_lower k t o) g ≡ joined o (add_to_group wide_lower k t g)
  unfolding place
  joined-place token_section t o g = elim (Bool-cases (bytes_eq (trim_space t.text) [])) [
    | inl e ↦ rw (e, joined-nil o g.sections) refl
    | inr e ↦ rw (e, joined-nil o (headed wide_lower t g)) refl
  ]
  joined-place token_key_value t o g =
      rw (extend_last-append o.last (line_of token_key_value t) g.leading) refl
  joined-place token_comment t o g =
      rw (extend_last-append o.last (line_of token_comment t) g.leading) refl
  joined-place token_blank t o g =
      rw (extend_last-append o.last (line_of token_blank t) g.leading) refl
  joined-place token_malformed t o g =
      rw (extend_last-append o.last (line_of token_malformed t) g.leading) refl

  pub all-place_all :
      (ts : List Token) (o : Opened)
      → all (place_all wide_lower ts o) ≡ joined o (group wide_lower ts)
  unfolding place_all group
  all-place_all [] o = rw (joined-nil o [], append-nil (all o)) refl
  all-place_all (t ∷ ts) o =
      all-place_all ts (place wide_lower t.kind t o) ∙ joined-place t.kind t o (group wide_lower ts)
