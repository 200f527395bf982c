-- ===== src/Panel/Commands.antt =====
-- cmd/dicta-preview/main.go: how often a panel speaks to the daemon.
use dicta.Base.{
  ◌≤◌, ◌≡◌, ap, true, false, not, ◌&&◌, List, [], ◌∷◌, length, is_empty, if_intro, arith,
}
use dicta.Panel.{
  Editor, insert, Line, transcript, session_state, unknown, undecoded, Command, commit, cancel,
  editor_text, Panel, receive_line, on_line, on_disconnect, on_sub_done, on_signal, Key, enter,
  escape, drained, on_keys, on_frame, on_destroy, Step, reads, disconnects, notices, signals,
  destroys, frames, step, run,
}

-- One command at most, and none before the panel exits.
pub record IsPolite (p : Panel) : Type 0 where
  pub silent : p.exited ≡ false → p.sent ≡ []
  pub once : length p.sent ≤ 1

receive_line-IsPolite : (l : Line) (p : Panel) → IsPolite p → IsPolite (receive_line l p)
receive_line-IsPolite (transcript t final) p v =
    if_intro IsPolite (final && not (is_empty t)) (λ _. record { silent = v.silent; once = v.once })
      (λ _. v)
receive_line-IsPolite (session_state is_open) p v =
    if_intro IsPolite (not is_open) (λ _. record { silent = v.silent; once = v.once }) (λ _. v)
receive_line-IsPolite unknown p v = v
receive_line-IsPolite undecoded p v = v

sent-one : (c : Command) (cs : List Command) → cs ≡ [] → length (c ∷ cs) ≤ 1
sent-one c [] h = omega arith
sent-one c (d ∷ cs) h = cc

says-IsPolite :
    (c : Command) (p : Panel)
    → p.sent ≡ []
    → IsPolite (record p { sent = c ∷ p.sent; exited = true })
says-IsPolite c p h = record { silent = λ q. cc; once = sent-one c p.sent h }

on_keys-IsPolite :
    (keys : List Key) (p : Panel) → p.exited ≡ false → p.sent ≡ [] → IsPolite (on_keys keys p)
unfolding on_keys
on_keys-IsPolite [] p e h = record { silent = λ _. h; once = omega (arith, ap length h) }
on_keys-IsPolite (enter pressed shift ∷ keys) p e h =
    if_intro IsPolite (not pressed) (λ _. on_keys-IsPolite keys p e h)
      (λ _.
        if_intro IsPolite shift
          (λ _. on_keys-IsPolite keys (record p { editor = insert (10 ∷ []) p.editor }) e h)
          (λ _. says-IsPolite (commit (editor_text p.editor)) p h))
on_keys-IsPolite (escape pressed ∷ keys) p e h =
    if_intro IsPolite (not pressed) (λ _. on_keys-IsPolite keys p e h)
      (λ _. says-IsPolite cancel p h)

on_frame-IsPolite :
    (keys : List Key) (typed : Editor → Editor) (p : Panel)
    → IsPolite p
    → IsPolite (on_frame keys typed p)
unfolding on_frame
on_frame-IsPolite keys typed p v =
    if_intro IsPolite p.exited (λ _. v)
      (λ e.
        let next : IsPolite
            (on_keys keys (record p { editor = drained p.incoming p.editor; incoming = [] })) =
          on_keys-IsPolite keys (record p { editor = drained p.incoming p.editor; incoming = [] }) e
            (v.silent e) in
        record { silent = next.silent; once = next.once })

on_destroy-IsPolite : (p : Panel) → IsPolite p → IsPolite (on_destroy p)
unfolding on_destroy
on_destroy-IsPolite p v =
    if_intro IsPolite p.exited (λ _. v)
      (λ e.
        if_intro IsPolite (not p.daemon_closed) (λ _. says-IsPolite cancel p (v.silent e))
          (λ _. record { silent = λ q. cc; once = v.once }))

step-IsPolite : (k : Step) (p : Panel) → IsPolite p → IsPolite (step k p)
unfolding step on_line on_disconnect on_sub_done on_signal
step-IsPolite (reads l) p v =
    if_intro IsPolite p.subscribed (λ _. receive_line-IsPolite l p v) (λ _. v)
step-IsPolite disconnects p v = record { silent = v.silent; once = v.once }
step-IsPolite notices p v =
    if_intro IsPolite p.subscribed (λ _. v) (λ _. record { silent = v.silent; once = v.once })
step-IsPolite signals p v = record { silent = v.silent; once = v.once }
step-IsPolite destroys p v = on_destroy-IsPolite p v
step-IsPolite (frames keys typed) p v = on_frame-IsPolite keys typed p v

-- A panel that has sent one command at most, and none unless it has exited, such as a new one, stays
-- so whatever happens to it: no key, event or close makes it speak to the daemon twice.
pub run-IsPolite : (ks : List Step) (p : Panel) → IsPolite p → IsPolite (run ks p)
unfolding run
run-IsPolite [] p v = v
run-IsPolite (k ∷ ks) p v = run-IsPolite ks (step k p) (step-IsPolite k p v)

-- A window that the daemon has closed sends nothing when it is destroyed.
pub on_destroy-closed : (p : Panel) → p.daemon_closed ≡ true → (on_destroy p).sent ≡ p.sent
unfolding on_destroy
on_destroy-closed p h = ground arith
