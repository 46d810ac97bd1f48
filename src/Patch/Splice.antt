-- ===== src/Patch/Splice.antt =====
-- patch.go, `prepare`: applying the edits backwards is splicing them in from the front.
use ikemen_devtools.Prelude.{
  ℕ, zero, suc, ◌-◌, ◌≤◌, ◌≡◌, refl, sym, ap, ◌∙◌, inl, inr, true, false, none, List, [], ◌∷◌, ◌++◌,
  length, take, drop, arith, append_assoc, take-append-drop, length-take, Bool-cases, Option-cases,
}
use ikemen_devtools.Prelude.Int.{pos_part}
use ikemen_devtools.Prelude.Text.{Bytes, eq_of_bytes_eq}
use mathlib.Core.List.{Perm}
use mathlib.Core.List.Perm
use ikemen_devtools.Patch.Edits.{
  Span, offsets_ok, Edit, accepted, first, last, slice, validate_span, check_edit, check_edits,
  edit_less, insert_edit, sort_edits, has_overlap, replace, apply_edits, edit_file,
}

-- The file's bytes from offset `cur` on, with the texts between the edits kept.
pub splice : Bytes → ℕ → List Edit → Bytes
splice original cur [] = drop cur original
splice original cur (e ∷ es) =
    slice cur (first e) original ++ (e.new_text ++ splice original (last e) es)

-- The edits lie one behind the other, from offset `cur` to `end`.
abbrev pub Ordered : ℕ → ℕ → List Edit → Type 0
Ordered cur end [] = cur ≤ end
Ordered cur end (e ∷ es) = (cur ≤ first e) × (first e ≤ last e) × Ordered (last e) end es

module _ {ℓ} {A : Type ℓ} where
  take-append_left : (n : ℕ) (xs ys : List A) → n ≤ length xs → take n (xs ++ ys) ≡ take n xs
  take-append_left zero xs ys h = refl
  take-append_left (suc n) [] ys h = elim h [ ]
  take-append_left (suc n) (x ∷ xs) ys h = ap (λ t. x ∷ t) (take-append_left n xs ys (omega arith))

  drop-append_right : (xs ys : List A) → drop (length xs) (xs ++ ys) ≡ ys
  drop-append_right [] ys = refl
  drop-append_right (x ∷ xs) ys = drop-append_right xs ys

  take-take : (n m : ℕ) (xs : List A) → n ≤ m → take n (take m xs) ≡ take n xs
  take-take zero m xs h = refl
  take-take (suc n) zero xs h = elim h [ ]
  take-take (suc n) (suc m) [] h = refl
  take-take (suc n) (suc m) (x ∷ xs) h = ap (λ t. x ∷ t) (take-take n m xs (omega arith))

  take-nil : (n : ℕ) → take {A = A} n [] ≡ []
  take-nil zero = refl
  take-nil (suc n) = refl

  drop-append_of_length : (n : ℕ) (xs ys : List A) → length xs ≡ n → drop n (xs ++ ys) ≡ ys
  drop-append_of_length n xs ys h = rw (← h) (drop-append_right xs ys)

  take-split : (n m : ℕ) (xs : List A) → n ≤ m → take m xs ≡ take n xs ++ take (m - n) (drop n xs)
  take-split zero m xs h = let e : m - 0 ≡ m = omega arith in rw e refl
  take-split (suc n) zero xs h = elim h [ ]
  take-split (suc n) (suc m) [] h = sym (take-nil (suc m - suc n))
  take-split (suc n) (suc m) (x ∷ xs) h =
      let e : suc m - suc n ≡ m - n = omega arith in
      rw e (ap (λ t. x ∷ t) (take-split n m xs (omega arith)))

Ordered-le : (cur end : ℕ) (es : List Edit) → Ordered cur end es → cur ≤ end
Ordered-le cur end [] h = h
Ordered-le cur end (e ∷ es) h = omega (arith, Ordered-le (last e) end es h.2)

length-take_within : (n : ℕ) (s : Bytes) → n ≤ length s → length (take n s) ≡ n
length-take_within n s h = omega (arith, length-take n s)

-- An edit in front of a part that was edited already.
replace-front :
    (original rest : Bytes) (e : Edit)
    → first e ≤ last e
    → last e ≤ length original
    → replace e (take (last e) original ++ rest) ≡ take (first e) original ++ (e.new_text ++ rest)
unfolding replace
replace-front original rest e h k =
    let whole = length-take_within (last e) original k in
    rw (
      take-append_left (first e) (take (last e) original) rest (omega (arith, whole)),
      take-take (first e) (last e) original h,
      drop-append_of_length (last e) (take (last e) original) rest whole,
    )

apply_edits-splice_from :
    (original : Bytes) (cur : ℕ) (es : List Edit)
    → Ordered cur (length original) es
    → apply_edits original es ≡ take cur original ++ splice original cur es
unfolding apply_edits splice
apply_edits-splice_from original cur [] h = sym (take-append-drop cur original)
apply_edits-splice_from original cur (e ∷ es) h =
    let rest = splice original (last e) es in
    ap (replace e) (apply_edits-splice_from original (last e) es h.2)
    ∙ replace-front original rest e h.1 (Ordered-le (last e) _ es h.2)
    ∙ ap (λ t. t ++ (e.new_text ++ rest)) (take-split cur (first e) original h.0)
    ∙ append_assoc (take cur original) _ _

apply_edits-splice :
    (original : Bytes) (es : List Edit)
    → Ordered 0 (length original) es
    → apply_edits original es ≡ splice original 0 es
apply_edits-splice original es h = apply_edits-splice_from original 0 es h

-- What a checked edit promises of its span and its text.
pub record Fits (original : Bytes) (e : Edit) : Type 0 where
  pub order : first e ≤ last e
  pub within : last e ≤ length original
  pub text : slice (first e) (last e) original ≡ e.old_text

abbrev pub AllFit : Bytes → List Edit → Type 0
AllFit original [] = Unit
AllFit original (e ∷ es) = Fits original e × AllFit original es

offsets_ok_bounds :
    (s : Span) (data_bytes : Bytes)
    → offsets_ok s data_bytes ≡ true
    → (pos_part s.byte_start ≤ pos_part s.byte_end) × (pos_part s.byte_end ≤ length data_bytes)
unfolding offsets_ok
offsets_ok_bounds s data_bytes h = ground arith

check_edit-Fits :
    (path hash original : Bytes) (e : Edit)
    → check_edit path hash original e ≡ none
    → Fits original e
unfolding check_edit validate_span
check_edit-Fits path hash original e h = record {
  order = ground (arith, offsets_ok_bounds e.span original);
  within = ground (arith, offsets_ok_bounds e.span original);
  text = eq_of_bytes_eq (slice (first e) (last e) original) e.old_text (ground arith);
}

check_edits-AllFit :
    (path hash original : Bytes) (es : List Edit)
    → check_edits path hash original es ≡ none
    → AllFit original es
unfolding check_edits
check_edits-AllFit path hash original [] h = tt
check_edits-AllFit path hash original (e ∷ es) h =
    elim (Option-cases (check_edit path hash original e)) [
      | inl x ↦ (
        check_edit-Fits path hash original e x,
        check_edits-AllFit path hash original es (ground arith),
      )
      | inr (x, c) ↦ absurd (ground arith)
    ]

insert_edit-AllFit :
    (original : Bytes) (e : Edit) (es : List Edit)
    → Fits original e
    → AllFit original es
    → AllFit original (insert_edit e es)
unfolding insert_edit
insert_edit-AllFit original e [] f h = (f, tt)
insert_edit-AllFit original e (x ∷ xs) f h = elim (Bool-cases (edit_less x e)) [
  | inl l ↦ rw (l, AllFit) (h.0, insert_edit-AllFit original e xs f h.1)
  | inr l ↦ rw (l, AllFit) (f, h)
]

sort_edits-AllFit :
    (original : Bytes) (es : List Edit) → AllFit original es → AllFit original (sort_edits es)
unfolding sort_edits
sort_edits-AllFit original [] h = tt
sort_edits-AllFit original (e ∷ es) h =
    insert_edit-AllFit original e (sort_edits es) h.0 (sort_edits-AllFit original es h.1)

has_overlap-Ordered :
    (original : Bytes) (cur : ℕ) (e : Edit) (es : List Edit)
    → cur ≤ first e
    → AllFit original (e ∷ es)
    → has_overlap (e ∷ es) ≡ false
    → Ordered cur (length original) (e ∷ es)
unfolding has_overlap
has_overlap-Ordered original cur e [] h f n = (h, f.0.order, f.0.within)
has_overlap-Ordered original cur e (x ∷ xs) h f n =
    (h, f.0.order, has_overlap-Ordered original (last e) x xs (ground arith) f.1 (ground arith))

sorted-Ordered :
    (original : Bytes) (es : List Edit)
    → AllFit original es
    → has_overlap es ≡ false
    → Ordered 0 (length original) es
sorted-Ordered original [] f n = omega arith
sorted-Ordered original (e ∷ es) f n = has_overlap-Ordered original 0 e es (omega arith) f n

insert_edit-Perm : (e : Edit) (es : List Edit) → Perm (e ∷ es) (insert_edit e es)
unfolding insert_edit
insert_edit-Perm e [] = Perm.refl (e ∷ [])
insert_edit-Perm e (x ∷ xs) = elim (Bool-cases (edit_less x e)) [
  | inl l ↦ rw l (Perm.trans (Perm.swap x e xs) (Perm.cons x (insert_edit-Perm e xs)))
  | inr l ↦ rw l (Perm.refl (e ∷ x ∷ xs))
]

sort_edits-Perm : (es : List Edit) → Perm es (sort_edits es)
unfolding sort_edits
sort_edits-Perm [] = Perm.refl []
sort_edits-Perm (e ∷ es) =
    Perm.trans (Perm.cons e (sort_edits-Perm es)) (insert_edit-Perm e (sort_edits es))

-- What a successful edit of a file promises: every edit fits the file's bytes, the sorted edits are
-- the same edits and lie one behind the other, and the result is the file with exactly those pieces replaced.
pub record Edited (original : Bytes) (es : List Edit) (result : Bytes) : Type 0 where
  pub fit : AllFit original es
  pub all : Perm es (sort_edits es)
  pub ordered : Ordered 0 (length original) (sort_edits es)
  pub spliced : result ≡ splice original 0 (sort_edits es)

-- If `prepare` accepts the edits of a file, then every edit replaces text that stands in the file as
-- the edit expects it, the sort keeps every edit, no two sorted edits overlap, and the new bytes are the old ones with exactly
-- the edited pieces replaced: the bytes between the edits are kept, in their order.
pub edit_file-Edited :
    (path hash original : Bytes) (es : List Edit) (result : Bytes)
    → edit_file path hash original es ≡ accepted result
    → Edited original es result
unfolding edit_file
edit_file-Edited path hash original es result h =
    elim (Option-cases (check_edits path hash original es)) [
      | inr (x, e) ↦ absurd (ground arith)
      | inl e ↦ elim (Bool-cases (has_overlap (sort_edits es))) [
        | inl o ↦ absurd (ground arith)
        | inr o ↦
            let fit = check_edits-AllFit path hash original es e in
            let ordered =
              sorted-Ordered original (sort_edits es) (sort_edits-AllFit original es fit) o in
            let result_eq : apply_edits original (sort_edits es) ≡ result = ground arith in
            record {
              fit = fit;
              all = sort_edits-Perm es;
              ordered = ordered;
              spliced = sym result_eq ∙ apply_edits-splice original (sort_edits es) ordered;
            }
      ]
    ]
