-- ===== src/Minio/Multipart/Complete.antt =====
-- What `CompleteMultipartUpload` sends to the store, and when it sends nothing.
use mathlib.Core.List.{Perm}
use mathlib.Core.List.Perm
use stdlib_lab.Prelude.{
  ◌≡◌, ◌≢◌, refl, inl, inr, true, false, List, [], ◌∷◌, none, ℤ, pos, negsuc, int_ltb, Text, length,
  All, arith, Bool-cases,
}
use stdlib_lab.Minio.Multipart.{
  ObjectStore, pair, insert_part, sort_parts, completed, complete_multipart_upload,
}

abbrev NotBefore : ℤ × Text → ℤ × Text → Type 0
NotBefore p q = int_ltb q.0 p.0 ≡ false

-- No part stands before one with a smaller number.
abbrev pub IsSorted : List (ℤ × Text) → Type 0
IsSorted [] = Unit
IsSorted (p ∷ rest) = All (NotBefore p) rest × IsSorted rest

int_ltb_trans : (a b c : ℤ) → int_ltb b a ≡ false → int_ltb c b ≡ false → int_ltb c a ≡ false
int_ltb_trans (pos a) (pos b) (pos c) h k = ground arith
int_ltb_trans (pos a) (pos b) (negsuc c) h k = cc
int_ltb_trans (pos a) (negsuc b) c h k = cc
int_ltb_trans (negsuc a) (pos b) (pos c) h k = refl
int_ltb_trans (negsuc a) (pos b) (negsuc c) h k = cc
int_ltb_trans (negsuc a) (negsuc b) (pos c) h k = refl
int_ltb_trans (negsuc a) (negsuc b) (negsuc c) h k = ground arith

int_ltb_asymm : (a b : ℤ) → int_ltb a b ≡ true → int_ltb b a ≡ false
int_ltb_asymm (pos a) (pos b) h = ground arith
int_ltb_asymm (pos a) (negsuc b) h = cc
int_ltb_asymm (negsuc a) (pos b) h = refl
int_ltb_asymm (negsuc a) (negsuc b) h = ground arith

All-NotBefore :
    (p q : ℤ × Text) (rest : List (ℤ × Text))
    → NotBefore p q
    → All (NotBefore q) rest
    → All (NotBefore p) rest
All-NotBefore p q [] h k = tt
All-NotBefore p q (r ∷ rest) h k = (int_ltb_trans p.0 q.0 r.0 h k.0, All-NotBefore p q rest h k.1)

All-insert :
    (o p : ℤ × Text) (rest : List (ℤ × Text))
    → NotBefore o p
    → All (NotBefore o) rest
    → All (NotBefore o) (insert_part p rest)
unfolding insert_part
All-insert o p [] h k = (h, tt)
All-insert o p (q ∷ rest) h k = elim (Bool-cases (int_ltb q.0 p.0)) [
  | inl after ↦ rw after (k.0, All-insert o p rest h k.1)
  | inr here ↦ rw here (h, k)
]

insert_part-IsSorted :
    (p : ℤ × Text) (rest : List (ℤ × Text)) → IsSorted rest → IsSorted (insert_part p rest)
unfolding insert_part
insert_part-IsSorted p [] s = (tt, tt)
insert_part-IsSorted p (q ∷ rest) s = elim (Bool-cases (int_ltb q.0 p.0)) [
  | inl after ↦
      rw after
        (All-insert q p rest (int_ltb_asymm q.0 p.0 after) s.0, insert_part-IsSorted p rest s.1)
  | inr here ↦ rw here ((here, All-NotBefore p q rest here s.0), s)
]

insert_part-perm : (p : ℤ × Text) (rest : List (ℤ × Text)) → Perm (insert_part p rest) (p ∷ rest)
unfolding insert_part
insert_part-perm p [] = Perm.refl (p ∷ [])
insert_part-perm p (q ∷ rest) = elim (Bool-cases (int_ltb q.0 p.0)) [
  | inl after ↦ rw after (Perm.trans (Perm.cons q (insert_part-perm p rest)) (Perm.swap p q rest))
  | inr here ↦ rw here (Perm.refl (p ∷ q ∷ rest))
]

pub sort_parts-IsSorted : (parts : List (ℤ × Text)) → IsSorted (sort_parts parts)
unfolding sort_parts
sort_parts-IsSorted [] = tt
sort_parts-IsSorted (p ∷ rest) = insert_part-IsSorted p (sort_parts rest) (sort_parts-IsSorted rest)

pub sort_parts-perm : (parts : List (ℤ × Text)) → Perm (sort_parts parts) parts
unfolding sort_parts
sort_parts-perm [] = Perm.refl []
sort_parts-perm (p ∷ rest) =
    Perm.trans (insert_part-perm p (sort_parts rest)) (Perm.cons p (sort_parts-perm rest))

-- With as many ETags as part numbers, at least one, and a connection, the store is sent the parts
-- that were given, each number with its own ETag, in the order of their numbers.
pub complete_sends_in_order :
    {W : Type 0} (api : ObjectStore W) (bucket key upload_id : Text) (part_numbers : List ℤ)
    (etags : List Text) (w : W)
    → length part_numbers ≡ length etags
    → part_numbers ≢ []
    → api.core w ≡ true
    → (parts : List (ℤ × Text)) × IsSorted parts
      × Perm parts (pair part_numbers etags)
      × (complete_multipart_upload api bucket key upload_id part_numbers etags w
          ≡ completed api (api.complete_upload bucket key upload_id parts w))
unfolding complete_multipart_upload
complete_sends_in_order api bucket key upload_id [] etags w same some_parts connected =
    absurd (some_parts refl)
complete_sends_in_order api bucket key upload_id (n ∷ ns) etags w same some_parts connected = (
  sort_parts (pair (n ∷ ns) etags),
  sort_parts-IsSorted (pair (n ∷ ns) etags),
  sort_parts-perm (pair (n ∷ ns) etags),
  ground arith,
)

-- With different numbers of part numbers and ETags, nothing is sent and an error is returned.
pub complete-mismatched :
    {W : Type 0} (api : ObjectStore W) (bucket key upload_id : Text) (part_numbers : List ℤ)
    (etags : List Text) (w : W)
    → length part_numbers ≢ length etags
    → ((complete_multipart_upload api bucket key upload_id part_numbers etags w).0 ≢ none)
      × ((complete_multipart_upload api bucket key upload_id part_numbers etags w).1 ≡ w)
unfolding complete_multipart_upload
complete-mismatched api bucket key upload_id part_numbers etags w differ =
    (λ e. ground arith, ground arith)
