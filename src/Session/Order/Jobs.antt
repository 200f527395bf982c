-- ===== src/Session/Order/Jobs.antt =====
-- Lemmas on the running transcriptions and on ascending ids.
use Prim.Native.Nat.{ℕ, suc, ◌≤◌, ◌<◌}
use dicta.Base.{
  ◌≡◌, refl, ap, ◌==◌, List, [], ◌∷◌, ◌++◌, Option, none, some, Text, arith, Bool-cases, inl, inr,
}
use dicta.AsrMonitor.{Pending, find, remove}
use dicta.Session.State.{TypeJob, Submission, lookup}
use dicta.Session.Order.{Asc, ids, outstanding, jobs, Awaited, Below}

none-ne-some {ℓ} : {A : Type ℓ} {a : A} → ◌≡◌ {A = Option A} none (some a) → ⊥
none-ne-some h = cc

pub Asc-mono : (lo lo' hi : ℕ) (xs : List ℕ) → lo' ≤ lo → Asc lo hi xs → Asc lo' hi xs
Asc-mono lo lo' hi [] h a = omega arith
Asc-mono lo lo' hi (x ∷ xs) h a = (omega arith, a.1)

-- The next id goes to the end.
pub Asc-snoc :
    (lo hi : ℕ) (js : List TypeJob) (j : TypeJob)
    → j.id ≡ hi
    → Asc lo hi (ids js)
    → Asc lo (suc hi) (ids (js ++ j ∷ []))
Asc-snoc lo hi [] j e a = (omega arith, omega arith)
Asc-snoc lo hi (x ∷ js) j e a = (a.0, Asc-snoc (suc x.id) hi js j e a.1)

pub Asc-outstanding :
    (lo hi : ℕ) (o : Option TypeJob) (js : List TypeJob) (j : TypeJob)
    → j.id ≡ hi
    → Asc lo hi (outstanding o js)
    → Asc lo (suc hi) (outstanding o (js ++ j ∷ []))
Asc-outstanding lo hi none js j e a = Asc-snoc lo hi js j e a
Asc-outstanding lo hi (some x) js j e a = (a.0, Asc-snoc (suc x.id) hi js j e a.1)

pub lookup-Below :
    {hi : ℕ} (done : List (ℕ × Text)) (k : ℕ) → Below hi done → hi ≤ k → lookup k done ≡ none
lookup-Below [] k b h = refl
lookup-Below ((id, t) ∷ done) k b h = ground (arith, lookup-Below done k b.1 h)

pub Below-mono : {hi hi' : ℕ} (done : List (ℕ × Text)) → hi ≤ hi' → Below hi done → Below hi' done
Below-mono [] h b = tt
Below-mono ((id, t) ∷ done) h b = (omega arith, Below-mono done h b.1)

-- A job below all that are awaited becomes ready.
pub Awaited-older :
    (lo hi : ℕ) (k : ℕ) (x : Text) (done : List (ℕ × Text)) (os : List (Option ℕ))
    → k < lo
    → Awaited lo hi done os
    → Awaited lo hi ((k, x) ∷ done) os
Awaited-older lo hi k x done [] h a = a
Awaited-older lo hi k x done (none ∷ os) h a = Awaited-older lo hi k x done os h a
Awaited-older lo hi k x done (some id ∷ os) h a =
    (a.0, ground arith, Awaited-older (suc id) hi k x done os (omega arith) a.2)

pub Awaited-mono :
    (lo lo' hi : ℕ) (done : List (ℕ × Text)) (os : List (Option ℕ))
    → lo' ≤ lo
    → Awaited lo hi done os
    → Awaited lo' hi done os
Awaited-mono lo lo' hi done [] h a = omega arith
Awaited-mono lo lo' hi done (none ∷ os) h a = Awaited-mono lo lo' hi done os h a
Awaited-mono lo lo' hi done (some id ∷ os) h a = (omega arith, a.1, a.2)

-- A job among the awaited is not ready, and once it is ready the others still are not.
pub record Freed (lo hi : ℕ) (done : List (ℕ × Text)) (os os' : List (Option ℕ)) (id : ℕ)
    : Type 0 where
  pub least : lo ≤ id
  pub below : id < hi
  pub unready : lookup id done ≡ none
  pub others : (x : Text) → Awaited lo hi ((id, x) ∷ done) (os ++ os')

pub Awaited-le :
    (lo hi : ℕ) (done : List (ℕ × Text)) (os : List (Option ℕ)) → Awaited lo hi done os → lo ≤ hi
Awaited-le lo hi done [] a = a
Awaited-le lo hi done (none ∷ os) a = Awaited-le lo hi done os a
Awaited-le lo hi done (some id ∷ os) a = omega (arith, Awaited-le (suc id) hi done os a.2)

pub Awaited-Freed :
    (lo hi : ℕ) (done : List (ℕ × Text)) (os os' : List (Option ℕ)) (id : ℕ)
    → Awaited lo hi done (os ++ some id ∷ os')
    → Freed lo hi done os os' id
Awaited-Freed lo hi done [] os' id a = record {
  least = a.0;
  below = Awaited-le (suc id) hi done os' a.2;
  unready = a.1;
  others = λ x.
      Awaited-mono (suc id) lo hi ((id, x) ∷ done) os' (omega arith)
        (Awaited-older (suc id) hi id x done os' (omega arith) a.2);
}
Awaited-Freed lo hi done (none ∷ os) os' id a =
    let f : Freed lo hi done os os' id = Awaited-Freed lo hi done os os' id a in
    record { least = f.least; below = f.below; unready = f.unready; others = f.others }
Awaited-Freed lo hi done (some j ∷ os) os' id a =
    let f : Freed (suc j) hi done os os' id = Awaited-Freed (suc j) hi done os os' id a.2 in
    record {
      least = omega (arith, f.least);
      below = f.below;
      unready = f.unready;
      others = λ x. (a.0, ground (arith, f.least), f.others x);
    }

pub Awaited-remove :
    (lo hi : ℕ) (done : List (ℕ × Text)) (os os' : List (Option ℕ)) (o : Option ℕ)
    → Awaited lo hi done (os ++ o ∷ os')
    → Awaited lo hi done (os ++ os')
Awaited-remove lo hi done [] os' none a = a
Awaited-remove lo hi done [] os' (some id) a =
    Awaited-mono (suc id) lo hi done os' (omega arith) a.2
Awaited-remove lo hi done (none ∷ os) os' o a = Awaited-remove lo hi done os os' o a
Awaited-remove lo hi done (some j ∷ os) os' o a =
    (a.0, a.1, Awaited-remove (suc j) hi done os os' o a.2)

-- The next job is submitted.
pub Awaited-snoc :
    (lo hi : ℕ) (done : List (ℕ × Text)) (os : List (Option ℕ))
    → lookup hi done ≡ none
    → Awaited lo hi done os
    → Awaited lo (suc hi) done (os ++ some hi ∷ [])
Awaited-snoc lo hi done [] h a = (a, h, omega arith)
Awaited-snoc lo hi done (none ∷ os) h a = Awaited-snoc lo hi done os h a
Awaited-snoc lo hi done (some id ∷ os) h a = (a.0, a.1, Awaited-snoc (suc id) hi done os h a.2)

pub Awaited-snoc_none :
    (lo hi : ℕ) (done : List (ℕ × Text)) (os : List (Option ℕ))
    → Awaited lo hi done os
    → Awaited lo hi done (os ++ none ∷ [])
Awaited-snoc_none lo hi done [] a = a
Awaited-snoc_none lo hi done (none ∷ os) a = Awaited-snoc_none lo hi done os a
Awaited-snoc_none lo hi done (some id ∷ os) a =
    (a.0, a.1, Awaited-snoc_none (suc id) hi done os a.2)

-- A job id is passed over, as when `onSkip` fires at once.
pub Awaited-up :
    (lo hi : ℕ) (done : List (ℕ × Text)) (os : List (Option ℕ))
    → Awaited lo hi done os
    → Awaited lo (suc hi) done os
Awaited-up lo hi done [] a = omega arith
Awaited-up lo hi done (none ∷ os) a = Awaited-up lo hi done os a
Awaited-up lo hi done (some id ∷ os) a = (a.0, a.1, Awaited-up (suc id) hi done os a.2)

pub Awaited-newer :
    (lo hi : ℕ) (k : ℕ) (x : Text) (done : List (ℕ × Text)) (os : List (Option ℕ))
    → hi ≤ k
    → Awaited lo hi done os
    → Awaited lo hi ((k, x) ∷ done) os
Awaited-newer lo hi k x done [] h a = a
Awaited-newer lo hi k x done (none ∷ os) h a = Awaited-newer lo hi k x done os h a
Awaited-newer lo hi k x done (some id ∷ os) h a = (
  a.0,
  ground (arith, Awaited-le (suc id) hi done os a.2),
  Awaited-newer (suc id) hi k x done os h a.2,
)

pub jobs-append : (ps qs : List (Pending Submission)) → jobs (ps ++ qs) ≡ jobs ps ++ jobs qs
jobs-append [] qs = refl
jobs-append (p ∷ ps) qs = ap (◌∷◌ p.callbacks.job) (jobs-append ps qs)

-- The transcription that a ticket finds, and the others.
pub record Found (t : ℕ) (ps : List (Pending Submission)) (p : Pending Submission) : Type 0 where
  pub before : List (Pending Submission)
  pub after : List (Pending Submission)
  pub ticket : p.ticket ≡ t
  pub whole : ps ≡ before ++ p ∷ after
  pub rest : remove t ps ≡ before ++ after

pub find-Found :
    (t : ℕ) (ps : List (Pending Submission)) (p : Pending Submission)
    → find t ps ≡ some p
    → Found t ps p
unfolding find remove
find-Found t [] p h = absurd (none-ne-some h)
find-Found t (q ∷ ps) p h = elim (Bool-cases (q.ticket == t)) [
  | inl e ↦ record {
    before = [];
    after = ps;
    ticket = ground arith;
    whole = ground arith;
    rest = rw e;
  }
  | inr e ↦
      let f : Found t ps p = find-Found t ps p (rw e at h) in
      record {
        before = q ∷ f.before;
        after = f.after;
        ticket = f.ticket;
        whole = ap (◌∷◌ q) f.whole;
        rest = rw e (ap (◌∷◌ q) f.rest);
      }
]
