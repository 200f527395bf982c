-- ===== src/Panel.antt =====
-- cmd/dicta-preview/main.go: the panel of clip-mode, from the events that the daemon pushes to the command
-- that it sends. The Gio window is a parameter: its events, and what the user makes of the editor.
pub mod Commands
mod Tests
use dicta.Base.{
  ℕ, Bool, true, false, not, ◌&&◌, List, [], ◌∷◌, ◌++◌, Option, none, some, Text, codes, is_empty,
  length, ltb, text_eq, if◌then◌else◌,
}

-- Gio's editor: the text before, within and behind the selection, which is empty at a mere caret.
pub record Editor : Type 0 where
  pub before : Text
  pub selected : Text
  pub behind : Text

abbrev pub editor_text : Editor → Text
editor_text ed = ed.before ++ ed.selected ++ ed.behind

-- `Insert` takes the place of the selection; `SetCaret` at the end.
abbrev pub insert : Text → Editor → Editor
insert t ed = record { before = ed.before ++ t; selected = []; behind = ed.behind }

abbrev pub to_end : Editor → Editor
to_end ed = record { before = editor_text ed; selected = []; behind = [] }

-- `appendTranscript`.
unfoldable pub append_transcript : Text → Editor → Editor
append_transcript t ed =
    if is_empty t
    then ed
    else insert t
        (if not (is_empty (editor_text ed)) then insert (codes " ") (to_end ed) else to_end ed)

-- What a line of the event channel decodes to. A transcript has a text, empty if there is none, and
-- says whether it is final.
pub data Line : Type 0 where
  transcript : Text → Bool → Line
  session_state : Bool → Line
  unknown undecoded : Line

pub data Command : Type 0 where
  commit : Text → Command
  cancel : Command

-- A response of the daemon: `ok` and its code, or a failed call.
pub data Response : Type 0 where
  response : Bool → Text → Response
  unsent : Response

-- The error that `sendCommit` or `sendCancel` returns.
unfoldable pub commit_fails : Response → Bool
commit_fails unsent = true
commit_fails (response ok code) = not ok

unfoldable pub cancel_fails : Response → Bool
cancel_fails unsent = true
cancel_fails (response ok code) = not ok && not (text_eq code (codes "not_implemented"))

-- `incoming` is the channel of 64 transcripts; `subscribed` says that `runSubscribe` has not
-- returned; `exited` that `runUI` has; `sent` are the commands, the newest first.
pub record Panel : Type 0 where
  pub editor : Editor
  pub incoming : List Text
  pub subscribed : Bool
  pub daemon_closed : Bool
  pub exited : Bool
  pub sent : List Command

unfoldable pub new : Panel
new = record {
  editor = record { before = []; selected = []; behind = [] };
  incoming = [];
  subscribed = true;
  daemon_closed = false;
  exited = false;
  sent = [];
}

abbrev pub queue : Text → List Text → List Text
queue t ch = if ltb (length ch) 64 then ch ++ t ∷ [] else ch

abbrev pub receive_line : Line → Panel → Panel
receive_line (transcript t final) p =
    if final && not (is_empty t) then record p { incoming = queue t p.incoming } else p
receive_line (session_state is_open) p = if not is_open then record p { subscribed = false } else p
receive_line unknown p = p
receive_line undecoded p = p

-- A line that `runSubscribe` reads.
unfoldable pub on_line : Line → Panel → Panel
on_line l p = if p.subscribed then receive_line l p else p

-- The end of the connection, and the goroutine that waits for the end of `runSubscribe`.
unfoldable pub on_disconnect : Panel → Panel
on_disconnect p = record p { subscribed = false }

unfoldable pub on_sub_done : Panel → Panel
on_sub_done p = if p.subscribed then p else record p { daemon_closed = true }

-- The signal that ends the context.
unfoldable pub on_signal : Panel → Panel
on_signal p = record p { daemon_closed = true }

-- A key event of the panel's filters: Enter, with or without Shift, and Escape, each pressed or
-- released.
pub data Key : Type 0 where
  enter : Bool → Bool → Key
  escape : Bool → Key

abbrev pub drained : List Text → Editor → Editor
unfolding append_transcript
drained [] ed = ed
drained (t ∷ ts) ed = drained ts (append_transcript t ed)

-- The loop over the key events of a frame.
unfoldable pub on_keys : List Key → Panel → Panel
on_keys [] p = p
on_keys (enter pressed shift ∷ keys) p =
    let next = on_keys keys p in
    let newline = on_keys keys (record p { editor = insert (10 ∷ []) p.editor }) in
    if not pressed
    then next
    else if shift
    then newline
    else record p { sent = commit (editor_text p.editor) ∷ p.sent; exited = true }
on_keys (escape pressed ∷ keys) p =
    let next = on_keys keys p in
    if not pressed then next else record p { sent = cancel ∷ p.sent; exited = true }

-- A frame, behind which the user has made `typed` of the editor's text.
unfoldable pub on_frame : List Key → (Editor → Editor) → Panel → Panel
unfolding on_keys drained
on_frame keys typed p =
    if p.exited
    then p
    else let p' = on_keys keys (record p { editor = drained p.incoming p.editor; incoming = [] }) in
      record p' { editor = typed p'.editor }

unfoldable pub on_destroy : Panel → Panel
on_destroy p =
    if p.exited
    then p
    else if not p.daemon_closed
    then record p { sent = cancel ∷ p.sent; exited = true }
    else record p { exited = true }

pub data Step : Type 0 where
  reads : Line → Step
  disconnects notices signals destroys : Step
  frames : List Key → (Editor → Editor) → Step

unfoldable pub step : Step → Panel → Panel
unfolding on_line on_disconnect on_sub_done on_signal on_destroy on_frame
step (reads l) p = on_line l p
step disconnects p = on_disconnect p
step notices p = on_sub_done p
step signals p = on_signal p
step destroys p = on_destroy p
step (frames keys typed) p = on_frame keys typed p

unfoldable pub run : List Step → Panel → Panel
unfolding step
run [] p = p
run (k ∷ ks) p = run ks (step k p)
