-- ===== src/Kafka/Consumer/Workers.antt =====
-- Sums over the workers, and how they change when one worker moves on.
use stdlib_lab.Prelude.{
  ℕ, zero, suc, ◌+◌, ◌*◌, true, List, [], ◌∷◌, ◌++◌, some, length, nat_eqb, if◌then◌else◌, ◌≡◌,
  refl, arith,
}
use stdlib_lab.Kafka.Consumer.{
  Phase, head, fetching, returned, sending, get_elem?, set, heads, all_returned,
}

abbrev pub total : (Phase → ℕ) → List Phase → ℕ
total f [] = 0
total f (p ∷ ps) = f p + total f ps

pub total-set :
    (f : Phase → ℕ) (ps : List Phase) (i : ℕ) (p q : Phase)
    → get_elem? ps i ≡ some p
    → total f (set ps i q) + f p ≡ total f ps + f q
total-set f [] i p q e = cc
total-set f (r ∷ ps) zero p q e = let same : r ≡ p = cc in rw same (omega arith)
total-set f (r ∷ ps) (suc i) p q e = omega (arith, total-set f ps i p q e)

pub total-heads : (f : Phase → ℕ) (n : ℕ) → total f (heads n) ≡ n * f head
total-heads f zero = omega arith
total-heads f (suc n) = grind (arith, total-heads f n)

pub length-set : (ps : List Phase) (i : ℕ) (q : Phase) → length (set ps i q) ≡ length ps
length-set [] i q = refl
length-set (p ∷ ps) zero q = refl
length-set (p ∷ ps) (suc i) q = omega (arith, length-set ps i q)

pub length-heads : (n : ℕ) → length (heads n) ≡ n
length-heads zero = refl
length-heads (suc n) = omega (arith, length-heads n)

-- Where all have returned, no worker is anywhere else.
pub get_elem?-all_returned :
    (ps : List Phase) (i : ℕ) {p : Phase}
    → all_returned ps ≡ true
    → get_elem? ps i ≡ some p
    → p ≡ returned
get_elem?-all_returned [] i h e = cc
get_elem?-all_returned (returned ∷ ps) zero h e = cc
get_elem?-all_returned (returned ∷ ps) (suc i) h e = get_elem?-all_returned ps i h e
get_elem?-all_returned (head ∷ ps) i h e = cc
get_elem?-all_returned (fetching ∷ ps) i h e = cc
get_elem?-all_returned (sending m ∷ ps) i h e = cc

pub total-all_returned :
    (f : Phase → ℕ) (ps : List Phase) → f returned ≡ 0 → all_returned ps ≡ true → total f ps ≡ 0
total-all_returned f [] z h = refl
total-all_returned f (returned ∷ ps) z h = omega (arith, total-all_returned f ps z h)
total-all_returned f (head ∷ ps) z h = cc
total-all_returned f (fetching ∷ ps) z h = cc
total-all_returned f (sending m ∷ ps) z h = cc

-- How often a message stands in a list.
abbrev pub count : ℕ → List ℕ → ℕ
count wanted [] = 0
count wanted (m ∷ later) = (if nat_eqb m wanted then 1 else 0) + count wanted later

pub count-append :
    (wanted : ℕ) (early later : List ℕ)
    → count wanted (early ++ later) ≡ count wanted early + count wanted later
count-append wanted [] later = omega arith
count-append wanted (m ∷ early) later = omega (arith, count-append wanted early later)

pub length-append : (xs ys : List ℕ) → length (xs ++ ys) ≡ length xs + length ys
length-append [] ys = omega arith
length-append (x ∷ xs) ys = omega (arith, length-append xs ys)
