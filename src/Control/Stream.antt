-- ===== src/Control/Stream.antt =====
-- internal/control/server.go: a connection in event-stream mode.
use dicta.Base.{
  ◌≡◌, ◌⊎◌, inl, inr, refl, ◌∙◌, true, false, List, [], ◌∷◌, Option, none, some, codes,
}
use dicta.Control.{
  Command, Failure, Response, Handler, refuse, wrap_err, subscribed, dispatch, Line, blank,
  malformed, too_long, decoded, handle_conn,
}

-- Refusals of a connection that is an event stream.
abbrev pub AreRefusals : List Response → Type 0
AreRefusals [] = Unit {0}
AreRefusals (r ∷ rs) =
    ((r ≡ refuse (codes "subscribed")) ⊎ (r ≡ refuse (codes "line_too_long"))) × AreRefusals rs

module _ {H : Type 0} (h : Handler H) where
  stream :
      (lines : List Line) (s : H)
      → ((handle_conn h lines true s).0 ≡ s) × AreRefusals (handle_conn h lines true s).1
  unfolding handle_conn
  stream [] s = (refl, tt)
  stream (too_long ∷ lines) s = (refl, (inr refl, tt))
  stream (blank ∷ lines) s = stream lines s
  stream (malformed ∷ lines) s = ((stream lines s).0, (inl refl, (stream lines s).1))
  stream (decoded c gone ∷ lines) s = ((stream lines s).0, (inl refl, (stream lines s).1))

  subscribed-none :
      (p : H × Option Failure)
      → p.1 ≡ none
      → subscribed h p ≡ (p.0, record { ok = true; code = [] }, true)
  unfolding subscribed wrap_err
  subscribed-none (s, none) e = refl
  subscribed-none (s, some f) e = absurd (some-ne-none e)
    where
      some-ne-none : some f ≡ none → ⊥
      some-ne-none q = cc

  dispatch-subscribe :
      (c : Command) (s : H)
      → c.cmd ≡ codes "subscribe"
      → dispatch h c s ≡ subscribed h (h.subscribe c.events s)
  unfolding dispatch
  dispatch-subscribe c s e = rw e refl

  -- Once a connection has subscribed, no further line of it reaches the daemon: the subscription
  -- is confirmed, its effect is the only one, and every other answer is a refusal.
  pub handle_conn-subscribe :
      (c : Command) (lines : List Line) (s : H)
      → c.cmd ≡ codes "subscribe"
      → (h.subscribe c.events s).1 ≡ none
      → let r = handle_conn h (decoded c false ∷ lines) false s in
        (r.0 ≡ (h.subscribe c.events s).0)
        × ((rs : List Response) × (r.1 ≡ record { ok = true; code = [] } ∷ rs) × AreRefusals rs)
  unfolding handle_conn
  handle_conn-subscribe c lines s e n =
      rw (dispatch-subscribe c s e ∙ subscribed-none (h.subscribe c.events s) n)
        ((stream lines s').0, ((handle_conn h lines true s').1, refl, (stream lines s').1))
    where
      s' : H
      s' = (h.subscribe c.events s).0
