-- ===== src/Postgres/Migrations/Files/Names.antt =====
-- File names written by `CreateMigration` and read by `loadMigrations`.
use stdlib_lab.Prelude.{
  ℕ, ◌+◌, ◌≤◌, ◌≡◌, ◌≢◌, ◌∙◌, refl, ap, List, [], ◌∷◌, ◌++◌, none, some, Text, codes, nat_eqb, All,
  All-append, length, Bool-cases, inl, inr, arith,
}
use mathlib.Core.List.{append_assoc}
use stdlib_lab.Postgres.Migrations.Files.{
  push, split, join, Direction, up, down, direction_text, header_of, from_parts, parse_filename,
  base_filename, migration_filename,
}

abbrev pub IsFree : ℕ → Text → Type 0
IsFree sep s = All (λ c. c ≢ sep) s

split_free : (sep : ℕ) (w : Text) → IsFree sep w → split sep w ≡ w ∷ []
unfolding split
split_free sep [] f = refl
split_free sep (c ∷ w) f = ground (arith, split_free sep w f.1)

split-append : (sep : ℕ) (w s : Text) → IsFree sep w → split sep (w ++ (sep ∷ s)) ≡ w ∷ split sep s
unfolding split
split-append sep [] s f = ground arith
split-append sep (c ∷ w) s f = ground (arith, split-append sep w s f.1)

split-ne-nil : (sep : ℕ) (s : Text) → split sep s ≢ []
unfolding split
split-ne-nil sep [] = λ e. cc
split-ne-nil sep (c ∷ s) = elim (Bool-cases (nat_eqb c sep)) [
  | inl same ↦ λ e. ground arith
  | inr other ↦ λ e. push-ne-nil c (split sep s) (rw other at e)
]
  where
    push-ne-nil : (c : ℕ) (ps : List Text) → push c ps ≢ []
    push-ne-nil c [] = λ e. cc
    push-ne-nil c (p ∷ ps) = λ e. cc

join-push : (sep c : ℕ) (ps : List Text) → join sep (push c ps) ≡ c ∷ join sep ps
unfolding join
join-push sep c [] = refl
join-push sep c (w ∷ []) = refl
join-push sep c (w ∷ v ∷ ws) = refl

join-empty : (sep : ℕ) (ps : List Text) → ps ≢ [] → join sep ([] ∷ ps) ≡ sep ∷ join sep ps
unfolding join
join-empty sep [] h = absurd (h refl)
join-empty sep (w ∷ ws) h = refl

-- Splitting at a separator and joining again is the identity.
pub join-split : (sep : ℕ) (s : Text) → join sep (split sep s) ≡ s
join-split sep [] = unfold join split in refl
join-split sep (c ∷ s) = elim (Bool-cases (nat_eqb c sep)) [
  | inl same ↦
      let at_sep : split sep (c ∷ s) ≡ [] ∷ split sep s = unfold split in rw same in
      ap (join sep) at_sep
      ∙ join-empty sep (split sep s) (split-ne-nil sep s)
      ∙ ground (arith, join-split sep s)
  | inr other ↦
      let inside : split sep (c ∷ s) ≡ push c (split sep s) = unfold split in rw other in
      ap (join sep) inside ∙ join-push sep c (split sep s) ∙ ap (λ t. c ∷ t) (join-split sep s)
]

direction-IsFree : (d : Direction) → IsFree b'.' (direction_text d)
direction-IsFree up = (omega arith)
direction-IsFree down = (omega arith)

split_filename :
    (d : Direction) (stem : Text)
    → IsFree b'.' stem
    → split b'.' (stem ++ (b'.' ∷ (direction_text d ++ (b'.' ∷ codes "sql"))))
      ≡ stem ∷ direction_text d ∷ codes "sql" ∷ []
split_filename d stem f =
    split-append b'.' stem _ f
    ∙ ap (λ t. stem ∷ t) (split-append b'.' (direction_text d) (codes "sql") (direction-IsFree d))
    ∙ ap (λ t. stem ∷ direction_text d ∷ t) (split_free b'.' (codes "sql") (omega arith))

from_parts-own :
    (d : Direction) (stem : Text)
    → from_parts d (stem ∷ direction_text d ∷ codes "sql" ∷ []) ≡ header_of (split b'_' stem)
from_parts-own up stem = refl
from_parts-own down stem = refl

header_of-parts :
    (id kind : Text) (ps : List Text)
    → ps ≢ []
    → header_of (id ∷ kind ∷ ps)
      ≡ some (record { id = id; migration_type = kind; name = join b'_' ps })
unfolding header_of
header_of-parts id kind [] h = absurd (h refl)
header_of-parts id kind (p ∷ ps) h = refl

stem-IsFree :
    (id kind name : Text)
    → IsFree b'.' id
    → IsFree b'.' kind
    → IsFree b'.' name
    → IsFree b'.' (base_filename id kind name)
unfolding base_filename
stem-IsFree id kind name fi fk fn =
    All-append (λ c. c ≢ b'.') id (b'_' ∷ (kind ++ (b'_' ∷ name))) fi
      (omega arith, All-append (λ c. c ≢ b'.') kind (b'_' ∷ name) fk (omega arith, fn))

split_stem :
    (id kind name : Text)
    → IsFree b'_' id
    → IsFree b'_' kind
    → split b'_' (base_filename id kind name) ≡ id ∷ kind ∷ split b'_' name
unfolding base_filename
split_stem id kind name ui uk =
    split-append b'_' id _ ui ∙ ap (λ t. id ∷ t) (split-append b'_' kind name uk)

-- A file that `CreateMigration` names is read back with its id, type and name, where none of the
-- three holds a dot and id and type hold no underscore. The name may hold underscores.
pub parse-migration_filename :
    (direction : Direction) (id kind name : Text)
    → IsFree b'.' id
    → IsFree b'.' kind
    → IsFree b'.' name
    → IsFree b'_' id
    → IsFree b'_' kind
    → parse_filename direction (migration_filename direction id kind name)
      ≡ some (record { id = id; migration_type = kind; name = name })
unfolding parse_filename migration_filename
parse-migration_filename direction id kind name fi fk fn ui uk =
    let stem = base_filename id kind name in
    ap (from_parts direction) (split_filename direction stem (stem-IsFree id kind name fi fk fn))
    ∙ from_parts-own direction stem
    ∙ ap header_of (split_stem id kind name ui uk)
    ∙ header_of-parts id kind (split b'_' name) (split-ne-nil b'_' name)
    ∙ ap (λ (n : Text). some (record { id = id; migration_type = kind; name = n }))
        (join-split b'_' name)

length-push : (c : ℕ) (ps : List Text) → ps ≢ [] → length (push c ps) ≡ length ps
length-push c [] h = absurd (h refl)
length-push c (p ∷ ps) h = refl

length-split-append :
    (sep : ℕ) (s t : Text)
    → length (split sep (s ++ (sep ∷ t))) ≡ length (split sep s) + length (split sep t)
unfolding split
length-split-append sep [] t = ground arith
length-split-append sep (c ∷ s) t = ground (
  arith,
  length-split-append sep s t,
  length-push c (split sep s) (split-ne-nil sep s),
  length-push c (split sep (s ++ (sep ∷ t))) (split-ne-nil sep (s ++ (sep ∷ t))),
)

split_pos : (sep : ℕ) (s : Text) → 1 ≤ length (split sep s)
split_pos sep s = nonempty (split sep s) (split-ne-nil sep s)
  where
    nonempty : (ps : List Text) → ps ≢ [] → 1 ≤ length ps
    nonempty [] h = absurd (h refl)
    nonempty (p ∷ ps) h = omega arith

from_parts-none : (d : Direction) (ps : List Text) → 4 ≤ length ps → from_parts d ps ≡ none
from_parts-none d [] h = refl
from_parts-none d (a ∷ []) h = refl
from_parts-none d (a ∷ b ∷ []) h = refl
from_parts-none d (a ∷ b ∷ c ∷ []) h = absurd (omega arith)
from_parts-none d (a ∷ b ∷ c ∷ e ∷ ps) h = refl

-- A name that holds a dot gives files that `loadMigrations` skips, in either direction.
pub dotted_name_skipped :
    (direction written : Direction) (id kind a b : Text)
    → parse_filename direction (migration_filename written id kind (a ++ (b'.' ∷ b))) ≡ none
unfolding parse_filename migration_filename base_filename
dotted_name_skipped direction written id kind a b =
    let before = base_filename id kind a in
    let after = b ++ (b'.' ∷ (direction_text written ++ (b'.' ∷ codes "sql"))) in
    let same : migration_filename written id kind (a ++ (b'.' ∷ b)) ≡ before ++ (b'.' ∷ after) =
      simp append_assoc in
    from_parts-none direction (split b'.' (migration_filename written id kind (a ++ (b'.' ∷ b)))) (
      rw same (
        omega (
          arith,
          length-split-append b'.' before after,
          length-split-append b'.' b (direction_text written ++ (b'.' ∷ codes "sql")),
          length-split-append b'.' (direction_text written) (codes "sql"),
          split_pos b'.' before,
          split_pos b'.' b,
          split_pos b'.' (direction_text written),
          split_pos b'.' (codes "sql"),
        )))
