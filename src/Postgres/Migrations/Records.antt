-- ===== src/Postgres/Migrations/Records.antt =====
-- The records of the history and the migration that `MigrateDown` picks from the lists.
use stdlib_lab.Prelude.{
  ◌≡◌, ◌≢◌, inl, inr, refl, sym, Bool-cases, false, Text, text_eqb, text_eqb_iff, true, List, [],
  ◌∷◌, none, some, Option-cases, All, arith,
}
use mathlib.Core.Path.{subst}
use mathlib.Core.List.{Mem, mem-cons_self, mem-cons_of_mem}
use stdlib_lab.Postgres.Migrations.Files.{Migration}
use stdlib_lab.Postgres.Migrations.{
  HistoryRecord, text_ltb, last_record, find_migration, delete_record,
}

-- The records of an id are taken out, and all others stay in their order.
pub data Without (id : Text) : List HistoryRecord → List HistoryRecord → Type 0 where
  empty : Without id [] []
  taken_out :
      {r : HistoryRecord} {before after : List HistoryRecord}
      → r.id ≡ id
      → Without id before after
      → Without id (r ∷ before) after
  kept :
      {r : HistoryRecord} {before after : List HistoryRecord}
      → r.id ≢ id
      → Without id before after
      → Without id (r ∷ before) (r ∷ after)

pub delete_record-Without :
    (id : Text) (history : List HistoryRecord) → Without id history (delete_record id history)
unfolding delete_record
delete_record-Without id [] = Without.empty
delete_record-Without id (r ∷ rs) =
    let (to, from) = text_eqb_iff r.id id in
    elim (Bool-cases (text_eqb r.id id)) [
      | inl same ↦ rw same (Without.taken_out (to same) (delete_record-Without id rs))
      | inr differs ↦
          rw differs (Without.kept (λ e. cc (from e, differs)) (delete_record-Without id rs))
    ]

pub find_migration-some :
    (id : Text) (ms : List Migration) {m : Migration}
    → find_migration id ms ≡ some m
    → Mem m ms × (m.id ≡ id)
unfolding find_migration
find_migration-some id [] h = absurd (ground arith)
find_migration-some id (x ∷ ms) {m} h = elim (Bool-cases (text_eqb x.id id)) [
  | inl same ↦
      let here : x ≡ m = ground arith in
      rw (sym here) (mem-cons_self, (text_eqb_iff x.id id).0 same)
  | inr differs ↦
      let (there, named) = find_migration-some id ms (rw (find_migration, differs) at h) in
      (mem-cons_of_mem x there, named)
]

text_ltb_irrefl : (s : Text) → text_ltb s s ≡ false
unfolding text_ltb
text_ltb_irrefl [] = refl
text_ltb_irrefl (a ∷ s) = ground (arith, text_ltb_irrefl s)

text_ltb_asym : (s t : Text) → text_ltb s t ≡ true → text_ltb t s ≡ false
unfolding text_ltb
text_ltb_asym s [] h = cc
text_ltb_asym [] (b ∷ t) h = refl
text_ltb_asym (a ∷ s) (b ∷ t) h = ground (arith, text_ltb_asym s t)

-- No id is greater than both, if neither is greater than the next.
text_ltb_trans : (a b c : Text) → text_ltb b a ≡ false → text_ltb c b ≡ false → text_ltb c a ≡ false
unfolding text_ltb
text_ltb_trans [] b c h k = refl
text_ltb_trans (x ∷ a) [] c h k = cc
text_ltb_trans (x ∷ a) (y ∷ b) [] h k = cc
text_ltb_trans (x ∷ a) (y ∷ b) (z ∷ c) h k = ground (arith, text_ltb_trans a b c)

last_record-none : (history : List HistoryRecord) → last_record history ≡ none → history ≡ []
unfolding last_record
last_record-none [] h = refl
last_record-none (r ∷ rs) h = absurd (ground arith)

-- A record that is not below one which is not below any of the others.
not_below :
    (r s : HistoryRecord) (history : List HistoryRecord)
    → text_ltb r.id s.id ≡ false
    → All (λ (x : HistoryRecord). text_ltb s.id x.id ≡ false) history
    → All (λ (x : HistoryRecord). text_ltb r.id x.id ≡ false) history
not_below r s [] h all = tt
not_below r s (x ∷ history) h (first, all) =
    (text_ltb_trans x.id s.id r.id first h, not_below r s history h all)

-- It stands in the history, and no other has a greater id.
abbrev pub IsGreatest : List HistoryRecord → HistoryRecord → Type 0
IsGreatest history last =
    Mem last history × All (λ (r : HistoryRecord). text_ltb last.id r.id ≡ false) history

pub last_record-IsGreatest :
    (history : List HistoryRecord) {last : HistoryRecord}
    → last_record history ≡ some last
    → IsGreatest history last
unfolding last_record
last_record-IsGreatest [] h = absurd (ground arith)
last_record-IsGreatest (r ∷ rs) {last} h = elim (Option-cases (last_record rs)) [
  | inl alone ↦
      let same : r ≡ last = ground arith in
      let one : IsGreatest (r ∷ []) r = (mem-cons_self, (text_ltb_irrefl r.id, tt)) in
      subst (IsGreatest (r ∷ rs)) same (rw (last_record-none rs alone) one)
  | inr (s, later) ↦
      let (member, greatest) = last_record-IsGreatest rs later in
      elim (Bool-cases (text_ltb r.id s.id)) [
        | inl less ↦
            let same : s ≡ last = ground arith in
            let above : IsGreatest (r ∷ rs) s =
              (mem-cons_of_mem r member, (text_ltb_asym r.id s.id less, greatest)) in
            subst (IsGreatest (r ∷ rs)) same above
        | inr first ↦
            let same : r ≡ last = ground arith in
            let above : IsGreatest (r ∷ rs) r =
              (mem-cons_self, (text_ltb_irrefl r.id, not_below r s rs first greatest)) in
            subst (IsGreatest (r ∷ rs)) same above
      ]
]
