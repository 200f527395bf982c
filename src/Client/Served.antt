-- ===== src/Client/Served.antt =====
-- cmd/dicta/main.go, cmd/dicta-preview/main.go and internal/control/server.go: the commands that the
-- clients send, at the server.
use dicta.Base.{
  ◌≡◌, refl, Bool, false, not, ◌||◌, List, [], ◌∷◌, Option, none, some, Text, codes, is_empty,
  text_eq, if◌then◌else◌, if_intro,
}
use dicta.Base.Ints.{ℤ}
use dicta.Control.{
  Command, Response, Failure, not_implemented, unavailable, other, Handler, err_resp, wrap_err,
  answered,
}
use dicta.Client.{
  Env, Global, Run, plain, send_and_print, run_check, toggle, run_toggle, commit, run_commit,
  dispatch, at_socket, commanded, parsed, run, check_client_timeout,
}
use dicta.Control

-- The server's own refusals of a line that it does not understand.
abbrev pub is_misunderstood : Response → Bool
is_misunderstood r =
    text_eq r.code (codes "unknown_command") || text_eq r.code (codes "bad_request")

module _ {H : Type 0} (h : Handler H) where
  -- Whatever the state of the daemon, the command reaches a method of it.
  pub IsUnderstood : Command → Type 0
  unfolding Control.dispatch
  IsUnderstood c = (s : H) → is_misunderstood (Control.dispatch h c s).1 ≡ false

  abbrev pub AreUnderstood : List (Text × Command × ℤ) → Type 0
  AreUnderstood [] = Unit {0}
  AreUnderstood ((socket, c, timeout) ∷ calls) = IsUnderstood c × AreUnderstood calls

  answered-understood : (r : H × Option Failure) → is_misunderstood (answered h r).1 ≡ false
  unfolding wrap_err err_resp
  answered-understood (s, none) = refl
  answered-understood (s, some not_implemented) = refl
  answered-understood (s, some unavailable) = refl
  answered-understood (s, some other) = refl

  status-IsUnderstood : IsUnderstood (plain (codes "status"))
  unfolding IsUnderstood Control.dispatch
  status-IsUnderstood s = answered-understood (h.status s)

  check-IsUnderstood : IsUnderstood (plain (codes "check"))
  unfolding IsUnderstood Control.dispatch
  check-IsUnderstood s = answered-understood (h.check s)

  toggle-IsUnderstood :
      (mode : Text) → IsUnderstood (record (plain (codes "toggle_talk")) { mode = mode })
  unfolding IsUnderstood Control.dispatch
  toggle-IsUnderstood mode s = answered-understood (h.toggle_talk mode s)

  commit-IsUnderstood :
      (text : Text) → IsUnderstood (record (plain (codes "commit")) { text = text })
  unfolding IsUnderstood Control.dispatch
  commit-IsUnderstood text s = answered-understood (h.commit text s)

  cancel-IsUnderstood : IsUnderstood (plain (codes "cancel"))
  unfolding IsUnderstood Control.dispatch
  cancel-IsUnderstood s = answered-understood (h.cancel s)

  suspend-IsUnderstood : IsUnderstood (plain (codes "suspend"))
  unfolding IsUnderstood Control.dispatch
  suspend-IsUnderstood s = answered-understood (h.suspend s)

  resume-IsUnderstood : IsUnderstood (plain (codes "resume"))
  unfolding IsUnderstood Control.dispatch
  resume-IsUnderstood s = answered-understood (h.resume s)

  shutdown-IsUnderstood : IsUnderstood (plain (codes "shutdown"))
  unfolding IsUnderstood Control.dispatch
  shutdown-IsUnderstood s = answered-understood (h.shutdown s)

  abbrev Served : Run → Type 0
  Served r = AreUnderstood r.calls

module _ {H : Type 0} (h : Handler H) (e : Env) where
  sent-Served :
      (socket : Text) (c : Command) (timeout : ℤ)
      → IsUnderstood h c
      → Served h (send_and_print e socket c timeout)
  unfolding send_and_print
  sent-Served socket c timeout h = (h, tt)

  toggle-Served :
      (socket : Text) (timeout : ℤ) (o : Option Text) → Served h (toggle e socket timeout o)
  unfolding toggle
  toggle-Served socket timeout none = tt
  toggle-Served socket timeout (some mode) =
      if_intro (Served h) (text_eq mode (codes "type") || text_eq mode (codes "clip"))
        (λ _.
          sent-Served socket (record (plain (codes "toggle_talk")) { mode = mode }) timeout
            (toggle-IsUnderstood h mode))
        (λ _. tt)

  commit-Served :
      (socket : Text) (timeout : ℤ) (o : Option Text) → Served h (commit e socket timeout o)
  unfolding commit
  commit-Served socket timeout none = tt
  commit-Served socket timeout (some text) =
      sent-Served socket (record (plain (codes "commit")) { text = text }) timeout
        (commit-IsUnderstood h text)

  dispatch-Served :
      (socket : Text) (g : Global) (name : Text) (args : List Text)
      → Served h (dispatch e socket g name args)
  unfolding dispatch run_check run_toggle run_commit
  dispatch-Served socket g name args =
      if_intro (Served h) (text_eq name (codes "status"))
        (λ _. sent-Served socket _ g.timeout (status-IsUnderstood h))
        (λ _.
          if_intro (Served h) (text_eq name (codes "check"))
            (λ _.
              sent-Served socket _ (if not g.timeout_set then check_client_timeout else g.timeout)
                (check-IsUnderstood h))
            (λ _.
              if_intro (Served h) (text_eq name (codes "toggle_talk"))
                (λ _. toggle-Served socket g.timeout (e.parse_mode args))
                (λ _.
                  if_intro (Served h) (text_eq name (codes "commit"))
                    (λ _. commit-Served socket g.timeout (e.parse_text args))
                    (λ _.
                      if_intro (Served h) (text_eq name (codes "cancel"))
                        (λ _. sent-Served socket _ g.timeout (cancel-IsUnderstood h))
                        (λ _.
                          if_intro (Served h) (text_eq name (codes "suspend"))
                            (λ _. sent-Served socket _ g.timeout (suspend-IsUnderstood h))
                            (λ _.
                              if_intro (Served h) (text_eq name (codes "resume"))
                                (λ _. sent-Served socket _ g.timeout (resume-IsUnderstood h))
                                (λ _.
                                  if_intro (Served h) (text_eq name (codes "shutdown"))
                                    (λ _. sent-Served socket _ g.timeout (shutdown-IsUnderstood h))
                                    (λ _.
                                      if_intro (Served h) (text_eq name (codes "probe-mute"))
                                        (λ _. tt) (λ _. tt)))))))))

  at_socket-Served :
      (g : Global) (name : Text) (args : List Text) (o : Option Text)
      → Served h (at_socket e g name args o)
  unfolding at_socket
  at_socket-Served g name args none = tt
  at_socket-Served g name args (some socket) = dispatch-Served socket g name args

  parsed-Served : (o : Option Global) → Served h (parsed e o)
  unfolding parsed
  parsed-Served none = tt
  parsed-Served (some g) = at g.rest
    where
      at : (rest : List Text) → Served h (commanded e g rest)
      at [] = tt
      at (name ∷ args) =
          at_socket-Served g name args
            (if is_empty g.socket then e.default_socket else some g.socket)

  -- Whatever the command line, and whatever the state of the daemon that its commands come to, the
  -- server answers none of them with `unknown_command` or `bad_request`.
  pub run-AreUnderstood : (args : List Text) → AreUnderstood h (run e args).calls
  unfolding run
  run-AreUnderstood args = parsed-Served (e.parse args)
