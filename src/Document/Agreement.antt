-- ===== src/Document/Agreement.antt =====
-- document.go, `Equal`: what it decides.
use ikemen_devtools.Prelude.{
  ◌≡◌, refl, ◌↔◌, arith, true, Option, none, some, List, [], ◌∷◌, length, ◌==◌,
}
use ikemen_devtools.Prelude.Text.{Bytes, bytes_eq_refl, eq_of_bytes_eq}
use ikemen_devtools.Ir.Documents.{Document}
use ikemen_devtools.Document.{
  Snapshot, all_equal, endings_equal, docs_equal, content_equal, heads_equal, equal,
}

-- The snapshots agree in everything that comes before the documents.
pub record SameHead (s t : Snapshot) : Type 0 where
  pub path_eq : s.normalized_path ≡ t.normalized_path
  pub type_eq : s.file_type ≡ t.file_type
  pub hash_eq : s.content_hash ≡ t.content_hash
  pub version_eq : s.version ≡ t.version
  pub contract_eq : s.identity_contract ≡ t.identity_contract

-- What the comparison reads of the documents.
pub record SameDocument (d e : Document) : Type 0 where
  pub version_eq : d.version ≡ e.version
  pub path_eq : d.path ≡ e.path
  pub type_eq : d.file_type ≡ e.file_type

-- The bytes, the endings and the documents agree, or there are no documents.
abbrev pub SameContent : Snapshot → Snapshot → Option Document → Option Document → Type 0
SameContent s t none none = Unit
SameContent s t none (some e) = ⊥
SameContent s t (some d) none = ⊥
SameContent s t (some d) (some e) =
    (s.raw ≡ t.raw) × (s.line_endings ≡ t.line_endings) × SameDocument d e

abbrev pub Same : Option Snapshot → Option Snapshot → Type 0
Same none none = Unit
Same none (some t) = ⊥
Same (some s) none = ⊥
Same (some s) (some t) = SameHead s t × SameContent s t s.parsed_doc t.parsed_doc

all_equal-eq : (xs ys : List Bytes) → all_equal xs ys ≡ true → xs ≡ ys
unfolding all_equal
all_equal-eq [] [] h = refl
all_equal-eq [] (y ∷ ys) h = cc
all_equal-eq (x ∷ xs) [] h = cc
all_equal-eq (x ∷ xs) (y ∷ ys) h =
    let head = eq_of_bytes_eq x y (ground arith) in
    let tail = all_equal-eq xs ys (ground arith) in cc

all_equal_refl : (xs : List Bytes) → all_equal xs xs ≡ true
unfolding all_equal
all_equal_refl [] = refl
all_equal_refl (x ∷ xs) = rw (bytes_eq_refl x) (all_equal_refl xs)

docs_equal-SameDocument : (d e : Document) → docs_equal d e ≡ true → SameDocument d e
unfolding docs_equal
docs_equal-SameDocument d e h = record {
  version_eq = eq_of_bytes_eq d.version e.version (ground arith);
  path_eq = eq_of_bytes_eq d.path e.path (ground arith);
  type_eq = eq_of_bytes_eq d.file_type e.file_type (ground arith);
}

SameDocument-docs_equal : (d e : Document) → SameDocument d e → docs_equal d e ≡ true
unfolding docs_equal
SameDocument-docs_equal d e h =
    rw
      (
        h.version_eq,
        h.path_eq,
        h.type_eq,
        bytes_eq_refl e.version,
        bytes_eq_refl e.path,
        bytes_eq_refl e.file_type,
      )
      refl

heads_equal-SameHead : (s t : Snapshot) → heads_equal s t ≡ true → SameHead s t
unfolding heads_equal
heads_equal-SameHead s t h = record {
  path_eq = eq_of_bytes_eq s.normalized_path t.normalized_path (ground arith);
  type_eq = eq_of_bytes_eq s.file_type t.file_type (ground arith);
  hash_eq = eq_of_bytes_eq s.content_hash t.content_hash (ground arith);
  version_eq = eq_of_bytes_eq s.version t.version (ground arith);
  contract_eq = eq_of_bytes_eq s.identity_contract t.identity_contract (ground arith);
}

SameHead-heads_equal : (s t : Snapshot) → SameHead s t → heads_equal s t ≡ true
unfolding heads_equal
SameHead-heads_equal s t h =
    rw
      (
        h.path_eq,
        h.type_eq,
        h.hash_eq,
        h.version_eq,
        h.contract_eq,
        bytes_eq_refl t.normalized_path,
        bytes_eq_refl t.file_type,
        bytes_eq_refl t.content_hash,
        bytes_eq_refl t.version,
        bytes_eq_refl t.identity_contract,
      )
      refl

content_equal-SameContent :
    (s t : Snapshot) (d e : Option Document) → content_equal s t d e ≡ true → SameContent s t d e
unfolding content_equal endings_equal
content_equal-SameContent s t none none h = tt
content_equal-SameContent s t none (some e) h = cc
content_equal-SameContent s t (some d) none h = cc
content_equal-SameContent s t (some d) (some e) h = (
  eq_of_bytes_eq s.raw t.raw (ground arith),
  all_equal-eq s.line_endings t.line_endings (ground arith),
  docs_equal-SameDocument d e (ground arith),
)

SameContent-content_equal :
    (s t : Snapshot) (d e : Option Document) → SameContent s t d e → content_equal s t d e ≡ true
unfolding content_equal endings_equal
SameContent-content_equal s t none none h = refl
SameContent-content_equal s t none (some e) h = elim h [ ]
SameContent-content_equal s t (some d) none h = elim h [ ]
SameContent-content_equal s t (some d) (some e) (raw_eq, endings_eq, doc_eq) =
    let size : (length t.line_endings == length t.line_endings) ≡ true = ground arith in
    rw
      (
        raw_eq,
        endings_eq,
        bytes_eq_refl t.raw,
        size,
        all_equal_refl t.line_endings,
        SameDocument-docs_equal d e doc_eq,
      )
      refl

-- `Equal` decides whether two snapshots agree: they are both nil, or both have the same path, type, hash,
-- version and contract, and either both have no document, or also the same bytes and line endings,
-- and documents of the same version, path and type.
pub equal-Same : (s t : Option Snapshot) → (equal s t ≡ true) ↔ Same s t
unfolding equal
equal-Same none none = (λ e. tt, λ h. refl)
equal-Same none (some t) = (λ e. cc, λ h. elim h [ ])
equal-Same (some s) none = (λ e. cc, λ h. elim h [ ])
equal-Same (some s) (some t) = (
  λ e. (
    heads_equal-SameHead s t (ground arith),
    content_equal-SameContent s t s.parsed_doc t.parsed_doc (ground arith),
  ),
  λ h.
      rw (SameHead-heads_equal s t h.0)
        (SameContent-content_equal s t s.parsed_doc t.parsed_doc h.1),
)
