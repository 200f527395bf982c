-- ===== src/Session/Progress/Cover.antt =====
-- Lemmas on jobs that are ready or awaited.
use Prim.Native.Nat.{ℕ}
use dicta.Base.{◌≡◌, inl, inr, sym, List, [], ◌∷◌, ◌++◌, Option, none, some, Text, arith}
use dicta.AsrMonitor.{Pending}
use dicta.Session.State.{TypeJob, Submission, lookup}
use dicta.Session.Order.{ids, outstanding}
use dicta.Session.Progress.{Waits, IsAnswered, Covered, IsTyped, AllTyped}

pub Covered-map :
    (done done' : List (ℕ × Text)) (os os' : List (Option ℕ)) (l : List ℕ)
    → ((id : ℕ) → IsAnswered done os id → IsAnswered done' os' id)
    → Covered done os l
    → Covered done' os' l
Covered-map done done' os os' [] f c = tt
Covered-map done done' os os' (id ∷ l) f c = (f id c.0, Covered-map done done' os os' l f c.1)

-- A job in front of the others may stand among them.
pub Waits-middle :
    (o : Option ℕ) (os os' : List (Option ℕ)) (id : ℕ)
    → Waits id (os ++ o ∷ os')
    → Waits id (o ∷ os ++ os')
Waits-middle o [] os' id w = w
Waits-middle o (none ∷ os) os' id w = after o (Waits-middle o os os' id w)
  where
    after : (o : Option ℕ) → Waits id (o ∷ os ++ os') → Waits id (o ∷ none ∷ (os ++ os'))
    after none h = h
    after (some k) h = h
Waits-middle o (some j ∷ os) os' id (inl e) = first o
  where
    first : (o : Option ℕ) → Waits id (o ∷ some j ∷ (os ++ os'))
    first none = inl e
    first (some k) = inr (inl e)
Waits-middle o (some j ∷ os) os' id (inr w) = after o (Waits-middle o os os' id w)
  where
    after : (o : Option ℕ) → Waits id (o ∷ os ++ os') → Waits id (o ∷ some j ∷ (os ++ os'))
    after none h = inr h
    after (some k) (inl e) = inl e
    after (some k) (inr h) = inr (inr h)

pub Waits-snoc :
    (o : Option ℕ) (os : List (Option ℕ)) (id : ℕ) → Waits id (o ∷ os) → Waits id (os ++ o ∷ [])
Waits-snoc o [] id w = w
Waits-snoc none (none ∷ os) id w = Waits-snoc none os id w
Waits-snoc (some k) (none ∷ os) id w = Waits-snoc (some k) os id w
Waits-snoc none (some j ∷ os) id (inl e) = inl e
Waits-snoc none (some j ∷ os) id (inr w) = inr (Waits-snoc none os id w)
Waits-snoc (some k) (some j ∷ os) id (inl e) = inr (Waits-snoc (some k) os id (inl e))
Waits-snoc (some k) (some j ∷ os) id (inr (inl e)) = inl e
Waits-snoc (some k) (some j ∷ os) id (inr (inr w)) = inr (Waits-snoc (some k) os id (inr w))

-- The job `k` becomes ready, or was ready before.
pub IsAnswered-close :
    (done : List (ℕ × Text)) (os : List (Option ℕ)) (k : ℕ) (x : Text) (id : ℕ)
    → IsAnswered done (some k ∷ os) id
    → IsAnswered ((k, x) ∷ done) os id
IsAnswered-close done os k x id (inl h) = inl (ground (arith, h))
IsAnswered-close done os k x id (inr (inl e)) = inl (ground arith)
IsAnswered-close done os k x id (inr (inr w)) = inr w

pub IsAnswered-ready :
    (done : List (ℕ × Text)) (os : List (Option ℕ)) (k : ℕ) (x : Text) (id : ℕ)
    → lookup k done ≡ some x
    → IsAnswered done (some k ∷ os) id
    → IsAnswered done os id
IsAnswered-ready done os k x id r (inl h) = inl h
IsAnswered-ready done os k x id r (inr (inl e)) = inl (rw (sym e, r) (λ h. cc))
IsAnswered-ready done os k x id r (inr (inr w)) = inr w

Covered-ids :
    (done : List (ℕ × Text)) (os : List (Option ℕ)) (js : List TypeJob) (j : TypeJob)
    → Covered done os (ids js)
    → IsAnswered done os j.id
    → Covered done os (ids (js ++ j ∷ []))
Covered-ids done os [] j c a = (a, tt)
Covered-ids done os (x ∷ js) j c a = (c.0, Covered-ids done os js j c.1 a)

pub Covered-outstanding :
    (done : List (ℕ × Text)) (os : List (Option ℕ)) (o : Option TypeJob) (js : List TypeJob)
    (j : TypeJob)
    → Covered done os (outstanding o js)
    → IsAnswered done os j.id
    → Covered done os (outstanding o (js ++ j ∷ []))
Covered-outstanding done os none js j c a = Covered-ids done os js j c a
Covered-outstanding done os (some i) js j c a = (c.0, Covered-ids done os js j c.1 a)

pub AllTyped-append :
    (ps qs : List (Pending Submission)) → AllTyped ps → AllTyped qs → AllTyped (ps ++ qs)
AllTyped-append [] qs a b = b
AllTyped-append (p ∷ ps) qs a b = (a.0, AllTyped-append ps qs a.1 b)

-- The transcription between two lists, and those lists.
pub AllTyped-part :
    (ps qs : List (Pending Submission)) (p : Pending Submission)
    → AllTyped (ps ++ p ∷ qs)
    → IsTyped p.callbacks × AllTyped (ps ++ qs)
AllTyped-part [] qs p a = a
AllTyped-part (x ∷ ps) qs p a =
    let r : IsTyped p.callbacks × AllTyped (ps ++ qs) = AllTyped-part ps qs p a.1 in
    (r.0, (a.0, r.1))
