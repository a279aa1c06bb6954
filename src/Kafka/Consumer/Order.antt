-- ===== src/Kafka/Consumer/Order.antt =====
-- One worker, which `Consume` asks for, keeps the order of the messages.
use stdlib_lab.Prelude.{
  length, ◌≤◌, ℕ, zero, suc, List, [], ◌∷◌, ◌++◌, some, ◌≡◌, ◌≢◌, ◌⊎◌, inl, inr, ◌∙◌, sym, ap, refl,
  arith,
}
use mathlib.Core.List.{append_assoc, append-nil}
use stdlib_lab.Kafka.Consumer.Delivery.{messages_are_kept}
use stdlib_lab.Kafka.Consumer.{
  Phase, head, fetching, returned, sending, System, get_elem?, set, goto, consume_parallel,
  WorkerStep, Step, Reached,
}

abbrev held : Phase → List ℕ
held (sending m) = m ∷ []
held head = []
held fetching = []
held returned = []

-- The one worker, and nothing is given up before it returns.
record IsOrdered (s : System) (p : Phase) : Type 0 where
  alone : s.workers ≡ p ∷ []
  kept : s.fetched ≡ s.received ++ (s.buffer ++ (held p ++ s.dropped))
  returns_last : (p ≡ returned) ⊎ (s.dropped ≡ [])

only_worker :
    (p q r : Phase) (ps : List Phase) (i : ℕ)
    → ps ≡ p ∷ []
    → get_elem? ps i ≡ some q
    → (p ≡ q) × (set ps i r ≡ r ∷ [])
only_worker p q r [] i e at = cc
only_worker p q r (x ∷ []) zero e at = (cc, refl)
only_worker p q r (x ∷ []) (suc i) e at = cc
only_worker p q r (x ∷ y ∷ ps) i e at = absurd (two_of_one e)
  where
    two_of_one : {x y : Phase} {ps : List Phase} → x ∷ y ∷ ps ≡ p ∷ [] → ⊥
    two_of_one e = ground arith

move :
    (s : System) (p q r : Phase) (i : ℕ) (f' b' d' : List ℕ)
    → IsOrdered s p
    → get_elem? s.workers i ≡ some q
    → ((p ≡ q) → f' ≡ s.received ++ (b' ++ (held r ++ d')))
    → ((p ≡ q) → (r ≡ returned) ⊎ (d' ≡ []))
    → IsOrdered (goto (record s { fetched = f'; buffer = b'; dropped = d' }) i r) r
move s p q r i f' b' d' v at k l =
    let (same, alone) = only_worker p q r s.workers i v.alone at in
    record { alone = alone; kept = k same; returns_last = l same }

-- A worker that holds a message has given up none.
nothing_given_up :
    {s : System} {p : Phase} (q : Phase) → IsOrdered s p → p ≡ q → q ≢ returned → s.dropped ≡ []
nothing_given_up q v e busy = elim v.returns_last [
  | inl done ↦ absurd (busy (sym e ∙ done))
  | inr empty ↦ empty
]

kept_at :
    {s : System} {p : Phase} (q : Phase)
    → IsOrdered s p
    → p ≡ q
    → s.fetched ≡ s.received ++ (s.buffer ++ (held q ++ s.dropped))
kept_at {s} q v e = v.kept ∙ ap (λ r. s.received ++ (s.buffer ++ (held r ++ s.dropped))) e

WorkerStep-IsOrdered :
    (i : ℕ) {s t : System} {p : Phase}
    → WorkerStep i s t
    → IsOrdered s p
    → (q : Phase) × IsOrdered t q
WorkerStep-IsOrdered i {p = p} (WorkerStep.stop s at h) v =
    (returned, move s p head returned i _ _ _ v at (kept_at head v) (λ e. inl refl))
WorkerStep-IsOrdered i {p = p} (WorkerStep.fetch s at h) v = (
  fetching,
  move s p head fetching i _ _ _ v at (kept_at head v)
      (λ e. inr (nothing_given_up head v e (λ f. cc))),
)
WorkerStep-IsOrdered i {p = p} (WorkerStep.message s m at) v = (
  sending m,
  move s p fetching (sending m) i (s.fetched ++ (m ∷ [])) _ _ v at
      (λ e.
        let empty = nothing_given_up fetching v e (λ f. cc) in
        ap (λ l. l ++ (m ∷ [])) (kept_at fetching v e) ∙ simp (empty, append_assoc, append-nil))
      (λ e. inr (nothing_given_up fetching v e (λ f. cc))),
)
WorkerStep-IsOrdered i {p = p} (WorkerStep.fetch_failed s at) v = (
  head,
  move s p fetching head i _ _ _ v at (kept_at fetching v)
      (λ e. inr (nothing_given_up fetching v e (λ f. cc))),
)
WorkerStep-IsOrdered i {p = p} (WorkerStep.fetch_cancelled s at) v =
    (returned, move s p fetching returned i _ _ _ v at (kept_at fetching v) (λ e. inl refl))
WorkerStep-IsOrdered i {p = p} (WorkerStep.send s m at room) v = (
  head,
  move s p (sending m) head i _ (s.buffer ++ (m ∷ [])) _ v at
      (λ e. kept_at (sending m) v e ∙ simp append_assoc)
      (λ e. inr (nothing_given_up (sending m) v e (λ f. cc))),
)
WorkerStep-IsOrdered i {p = p} (WorkerStep.give_up s m at h) v = (
  returned,
  move s p (sending m) returned i _ _ (s.dropped ++ (m ∷ [])) v at
      (λ e.
        let empty = nothing_given_up (sending m) v e (λ f. cc) in
        kept_at (sending m) v e ∙ simp empty)
      (λ e. inl refl),
)

Step-IsOrdered : {s t : System} {p : Phase} → Step s t → IsOrdered s p → (q : Phase) × IsOrdered t q
Step-IsOrdered (Step.by_worker i st) v = WorkerStep-IsOrdered i st v
Step-IsOrdered {p = p} (Step.close s h) v =
    (p, record { alone = v.alone; kept = v.kept; returns_last = v.returns_last })
Step-IsOrdered {p = p} (Step.take s m rest found) v = (
  p,
  record {
    alone = v.alone;
    kept =
        v.kept
        ∙ ap (λ b. s.received ++ (b ++ (held p ++ s.dropped))) found
        ∙ sym (append_assoc s.received (m ∷ []) (rest ++ (held p ++ s.dropped)));
    returns_last = v.returns_last;
  },
)
Step-IsOrdered {p = p} (Step.shut_down s) v =
    (p, record { alone = v.alone; kept = v.kept; returns_last = v.returns_last })
Step-IsOrdered {p = p} (Step.cancel s) v =
    (p, record { alone = v.alone; kept = v.kept; returns_last = v.returns_last })

Reached-IsOrdered : {s : System} → Reached 1 s → (p : Phase) × IsOrdered s p
unfolding consume_parallel
Reached-IsOrdered Reached.start =
    (head, record { alone = refl; kept = refl; returns_last = inr refl })
Reached-IsOrdered (Reached.next r st) = let (p, v) = Reached-IsOrdered r in Step-IsOrdered st v

held-length : (p : Phase) → length (held p) ≤ 1
held-length head = omega arith
held-length fetching = omega arith
held-length returned = omega arith
held-length (sending m) = omega arith

short :
    {s : System} (p : Phase)
    → IsOrdered s p
    → length s.dropped ≤ 1
    → length (held p ++ s.dropped) ≤ 1
short {s} p v few = elim v.returns_last [
  | inl done ↦ rw done few
  | inr empty ↦ rw (empty, append-nil (held p)) (held-length p)
]

-- With one worker, in every order of the steps, the messages that were fetched are, in the order of
-- fetching, those received, those in the buffer and at most one more, which the worker holds or gave
-- up.
pub consume_in_order :
    {s : System}
    → Reached 1 s
    → (rest : List ℕ) × (s.fetched ≡ s.received ++ (s.buffer ++ rest)) × (length rest ≤ 1)
consume_in_order {s} r =
    let (p, v) = Reached-IsOrdered r in
    (held p ++ s.dropped, v.kept, short p v (messages_are_kept 1 0 r).2)
