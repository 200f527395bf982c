-- ===== src/Control/Returned.antt =====
-- internal/control/server.go: when Serve returns after its context has ended.
use dicta.Base.{
  ℕ, suc, ◌-◌, ◌≡◌, ◌↔◌, refl, sym, ap, ◌∙◌, Bool, true, false, ◌&&◌, ◌||◌, List, [], ◌∷◌, ◌++◌,
  is_empty, ◌==◌, if◌then◌else◌, arith,
}
use dicta.Control.Listener.{
  Server, Step, connects, ends, accept_fails, cancels, closes, without, step, run,
}

-- Connections come and end, and nothing else happens.
abbrev pub IsTraffic : List Step → Type 0
IsTraffic [] = Unit {0}
IsTraffic (connects n ∷ ks) = IsTraffic ks
IsTraffic (ends n ∷ ks) = IsTraffic ks
IsTraffic (_ ∷ ks) = ⊥

-- How many connections have this number, of which `k` were there before; the Boolean says that new
-- ones are accepted.
abbrev pub tally : ℕ → Bool → List Step → ℕ → ℕ
tally n accepts [] k = k
tally n accepts (connects m ∷ ks) k = tally n accepts ks (if accepts && m == n then suc k else k)
tally n accepts (ends m ∷ ks) k = tally n accepts ks (if m == n then k - 1 else k)
tally n accepts (_ ∷ ks) k = tally n accepts ks k

abbrev pub count : ℕ → List ℕ → ℕ
count n [] = 0
count n (m ∷ ms) = if m == n then suc (count n ms) else count n ms

-- The connections of this number that are left: new ones are accepted up to the close.
abbrev pub left : ℕ → List Step → List Step → List Step → Server → ℕ
left n before between behind s =
    tally n false behind (tally n true between (tally n true before (count n s.conns)))

count-without :
    (n m : ℕ) (ms : List ℕ)
    → count n (without m ms) ≡ (if m == n then count n ms - 1 else count n ms)
count-without n m [] = ground arith
count-without n m (x ∷ ms) = ground (arith, count-without n m ms)

-- No connection is left exactly if none is left of any number.
empty_iff : (ms : List ℕ) → (is_empty ms ≡ true) ↔ ((n : ℕ) → count n ms ≡ 0)
empty_iff [] = (λ h n. refl, λ h. refl)
empty_iff (m ∷ ms) = (λ h. cc, λ h. absurd (ground (arith, h m)))

run-append : (ks ls : List Step) (s : Server) → run (ks ++ ls) s ≡ run ls (run ks s)
unfolding run
run-append [] ls s = refl
run-append (k ∷ ks) ls s = run-append ks ls (step k s)

-- The loop accepts, with the context ended or not.
record IsServing (canceled : Bool) (s : Server) : Type 0 where
  context : s.canceled ≡ canceled
  waiting : s.waiting ≡ false
  failed : s.failed ≡ false
  returned : s.returned ≡ false

-- The loop has left for the wait, and Serve has returned exactly if no connection is left.
record IsWaiting (s : Server) : Type 0 where
  waiting : s.waiting ≡ true
  returned : s.returned ≡ is_empty s.conns

step-IsServing-connects :
    (b : Bool) (m : ℕ) (s : Server)
    → IsServing b s
    → IsServing b (step (connects m) s) × ((step (connects m) s).conns ≡ m ∷ s.conns)
unfolding step
step-IsServing-connects b m s v = ground (arith, v)

step-IsServing-ends :
    (b : Bool) (m : ℕ) (s : Server)
    → IsServing b s
    → IsServing b (step (ends m) s) × ((step (ends m) s).conns ≡ without m s.conns)
unfolding step
step-IsServing-ends b m s v = ground (arith, v)

run-IsServing :
    (b : Bool) (ks : List Step) (s : Server)
    → IsTraffic ks
    → IsServing b s
    → IsServing b (run ks s)
      × ((n : ℕ) → count n (run ks s).conns ≡ tally n true ks (count n s.conns))
unfolding run
run-IsServing b [] s h v = (v, λ n. refl)
run-IsServing b (connects m ∷ ks) s h v =
    let once : IsServing b (step (connects m) s) × ((step (connects m) s).conns ≡ m ∷ s.conns) =
      step-IsServing-connects b m s v in
    let rest : IsServing b (run ks (step (connects m) s))
        × ((n : ℕ)
            → count n (run ks (step (connects m) s)).conns
              ≡ tally n true ks (count n (step (connects m) s).conns)) =
      run-IsServing b ks (step (connects m) s) h once.0 in
    (rest.0, λ n. rest.1 n ∙ ap (λ (l : List ℕ). tally n true ks (count n l)) once.1)
run-IsServing b (ends m ∷ ks) s h v =
    let once : IsServing b (step (ends m) s) × ((step (ends m) s).conns ≡ without m s.conns) =
      step-IsServing-ends b m s v in
    let rest : IsServing b (run ks (step (ends m) s))
        × ((n : ℕ)
            → count n (run ks (step (ends m) s)).conns
              ≡ tally n true ks (count n (step (ends m) s).conns)) =
      run-IsServing b ks (step (ends m) s) h once.0 in
    (
      rest.0,
      λ n.
          rest.1 n
          ∙ (ap (λ (l : List ℕ). tally n true ks (count n l)) once.1
              ∙ ap (tally n true ks) (count-without n m s.conns)),
    )
run-IsServing b (accept_fails ∷ ks) s h v = absurd h
run-IsServing b (cancels ∷ ks) s h v = absurd h
run-IsServing b (closes ∷ ks) s h v = absurd h

empty-without : (n : ℕ) (ms : List ℕ) → is_empty ms ≡ true → is_empty (without n ms) ≡ true
empty-without n [] h = refl
empty-without n (m ∷ ms) h = cc

or_empty :
    (r : Bool) (ms : List ℕ) (m : ℕ)
    → r ≡ is_empty ms
    → (r || is_empty (without m ms)) ≡ is_empty (without m ms)
or_empty true ms m h = sym (empty-without m ms (sym h))
or_empty false ms m h = refl

step-IsWaiting-connects :
    (m : ℕ) (s : Server)
    → IsWaiting s
    → IsWaiting (step (connects m) s) × ((step (connects m) s).conns ≡ s.conns)
unfolding step
step-IsWaiting-connects m s v = ground (arith, v)

step-IsWaiting-ends :
    (m : ℕ) (s : Server)
    → IsWaiting s
    → IsWaiting (step (ends m) s) × ((step (ends m) s).conns ≡ without m s.conns)
unfolding step
step-IsWaiting-ends m s v = (
  record {
    waiting = v.waiting;
    returned = rw v.waiting (or_empty s.returned s.conns m v.returned);
  },
  refl,
)

run-IsWaiting :
    (ks : List Step) (s : Server)
    → IsTraffic ks
    → IsWaiting s
    → IsWaiting (run ks s)
      × ((n : ℕ) → count n (run ks s).conns ≡ tally n false ks (count n s.conns))
unfolding run
run-IsWaiting [] s h v = (v, λ n. refl)
run-IsWaiting (connects m ∷ ks) s h v =
    let once : IsWaiting (step (connects m) s) × ((step (connects m) s).conns ≡ s.conns) =
      step-IsWaiting-connects m s v in
    let rest : IsWaiting (run ks (step (connects m) s))
        × ((n : ℕ)
            → count n (run ks (step (connects m) s)).conns
              ≡ tally n false ks (count n (step (connects m) s).conns)) =
      run-IsWaiting ks (step (connects m) s) h once.0 in
    (rest.0, λ n. rest.1 n ∙ ap (λ (l : List ℕ). tally n false ks (count n l)) once.1)
run-IsWaiting (ends m ∷ ks) s h v =
    let once : IsWaiting (step (ends m) s) × ((step (ends m) s).conns ≡ without m s.conns) =
      step-IsWaiting-ends m s v in
    let rest : IsWaiting (run ks (step (ends m) s))
        × ((n : ℕ)
            → count n (run ks (step (ends m) s)).conns
              ≡ tally n false ks (count n (step (ends m) s).conns)) =
      run-IsWaiting ks (step (ends m) s) h once.0 in
    (
      rest.0,
      λ n.
          rest.1 n
          ∙ (ap (λ (l : List ℕ). tally n false ks (count n l)) once.1
              ∙ ap (tally n false ks) (count-without n m s.conns)),
    )
run-IsWaiting (accept_fails ∷ ks) s h v = absurd h
run-IsWaiting (cancels ∷ ks) s h v = absurd h
run-IsWaiting (closes ∷ ks) s h v = absurd h

step-cancels :
    (s : Server)
    → IsServing false s
    → IsServing true (step cancels s) × ((step cancels s).conns ≡ s.conns)
unfolding step
step-cancels s v = ground (arith, v)

step-closes :
    (s : Server) → IsServing true s → IsWaiting (step closes s) × ((step closes s).conns ≡ s.conns)
unfolding step
step-closes s v = ground (arith, v)

-- A server that serves goes on with connections that come and end, then its context ends, further
-- connections come and end, its listener is closed, and more end. Serve has then returned without an
-- error exactly if no connection is left: each that came before the listener was closed has ended. A
-- client that stays connected keeps Serve from returning, and its end lets it return.
pub run-returned :
    (before between behind : List Step) (s : Server)
    → s.canceled ≡ false
    → s.waiting ≡ false
    → s.failed ≡ false
    → s.returned ≡ false
    → IsTraffic before
    → IsTraffic between
    → IsTraffic behind
    → ((run (before ++ (cancels ∷ between ++ closes ∷ behind)) s).returned ≡ true)
      ↔ ((n : ℕ) → left n before between behind s ≡ 0)
unfolding run
run-returned ks ls ms s c w f r h k l =
    let a : Server = run ks s in
    let x : Server = run ls (step cancels a) in
    let z : Server = run ms (step closes x) in
    let serving =
      run-IsServing false ks s h (record { context = c; waiting = w; failed = f; returned = r }) in
    let canceled = step-cancels a serving.0 in
    let ending = run-IsServing true ls (step cancels a) k canceled.0 in
    let closed = step-closes x ending.0 in
    let over = run-IsWaiting ms (step closes x) l closed.0 in
    let same : run (ks ++ (cancels ∷ ls ++ closes ∷ ms)) s ≡ z =
      run-append ks (cancels ∷ ls ++ closes ∷ ms) s
      ∙ run-append ls (closes ∷ ms) (step cancels a) in
    let counted : (n : ℕ) → count n z.conns ≡ left n ks ls ms s = λ n.
      over.1 n
      ∙ ap (tally n false ms) (
          ap (count n) closed.1
          ∙ (ending.1 n ∙ ap (tally n true ls) (ap (count n) canceled.1 ∙ serving.1 n))) in
    let out : (run (ks ++ (cancels ∷ ls ++ closes ∷ ms)) s).returned ≡ is_empty z.conns =
      ap (λ (t : Server). t.returned) same ∙ over.0.returned in
    let e : (is_empty z.conns ≡ true) ↔ ((n : ℕ) → count n z.conns ≡ 0) = empty_iff z.conns in
    (λ q n. sym (counted n) ∙ e.0 (sym out ∙ q) n, λ q. out ∙ e.1 (λ n. counted n ∙ q n))
