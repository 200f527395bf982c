-- ===== src/Session/Frame.antt =====
-- What utterances, replies and the worker leave alone: the fields of opening and closing.
use Prim.Native.Nat.{ℕ}
use dicta.Base.{suc, ◌++◌, ◌∷◌, [], ◌≡◌, List, Option, none, some, Text, Unicode, arith}
use dicta.AsrMonitor.{AsrMonitor, Reply, find, Pending}
use dicta.AsrMonitor
use dicta.Session.State.{
  mode_type, emit, flush_audio, armed, Config, Env, Session, Submission, mode_clip,
}
use dicta.Session.Lifecycle.{flush, flushed_utterance}
use dicta.Session.Utterance.{
  close_ready, close_job, note_speech, deliver, on_transcript, on_skip, submit, enqueue,
  on_utterance, on_reply, finish_reply, reply_to, publish_transcript, after_reply,
}
use dicta.Session.Worker.{take_from, start_job, dispatch, worker_take, worker_type}

pub record Frame (s s' : Session) : Type 0 where
  pub mode : s'.mode ≡ s.mode
  pub open_state : s'.open_state ≡ s.open_state
  pub epoch : s'.epoch ≡ s.epoch
  pub last_toggle : s'.last_toggle ≡ s.last_toggle
  pub timer : armed s'.idle_timer ≡ armed s.idle_timer
  pub capturing : s'.capturing ≡ s.capturing
  pub panel : s'.panel ≡ s.panel
  pub queue_closed : s'.queue_closed ≡ s.queue_closed

Frame-refl : (s : Session) → Frame s s
Frame-refl s = ground arith

Frame-trans : {s t u : Session} → Frame s t → Frame t u → Frame s u
Frame-trans f g = ground arith

close_ready-Frame : (id : ℕ) (text : Text) (s : Session) → Frame s (close_ready id text s)
unfolding close_ready
close_ready-Frame id text s = ground arith

close_job-Frame : (j : Option ℕ) (text : Text) (s : Session) → Frame s (close_job j text s)
unfolding close_job
close_job-Frame none text s = Frame-refl s
close_job-Frame (some id) text s = close_ready-Frame id text s

pub note_speech-Frame : (c : Config) (e : Env) (s : Session) → Frame s (note_speech c e s)
unfolding note_speech
note_speech-Frame c e s = ground arith

deliver-Frame :
    (c : Config) (e : Env) (k : Submission) (text : Text) (s : Session)
    → Frame s (deliver c e k text s)
unfolding deliver publish_transcript
deliver-Frame c e k text s =
    ground (arith, close_job-Frame k.job text (publish_transcript c text s))

on_transcript-Frame :
    (c : Config) (e : Env) (k : Submission) (text : Text) (s : Session)
    → Frame s (on_transcript c e k text s)
unfolding on_transcript
on_transcript-Frame c e k text s =
    ground (arith, close_job-Frame k.job [] s, deliver-Frame c e k text s)

submit-Frame : (pcm : List ℕ) (k : Submission) (s : Session) → Frame s (submit pcm k s)
unfolding submit on_skip
submit-Frame pcm k s =
    ground
      (arith, close_job-Frame k.job [] (record s { asr = (AsrMonitor.on_utterance pcm k s.asr).0 }))

enqueue-Frame : (pcm : List ℕ) (s : Session) → Frame s (enqueue pcm s)
unfolding enqueue
enqueue-Frame pcm s = ground (arith, submit-Frame pcm job queued)
  where
    job : Submission
    job = record { mode = mode_type; epoch = s.epoch; job = some s.next_id }

    queued : Session
    queued = record s {
      type_queue = s.type_queue ++ record { id = s.next_id; epoch = s.epoch } ∷ [];
      next_id = suc s.next_id;
    }

pub on_utterance-Frame :
    (c : Config) (e : Env) (pcm : List ℕ) (s : Session) → Frame s (on_utterance c e pcm s)
unfolding on_utterance
on_utterance-Frame c e pcm s = ground (
  arith,
  note_speech-Frame c e s,
  enqueue-Frame pcm (note_speech c e s),
  submit-Frame pcm (record { mode = mode_clip; epoch = s.epoch; job = none }) (note_speech c e s),
)

after_reply-Frame :
    (c : Config) (e : Env) (k : Submission) (out : Option Text) (s : Session)
    → Frame s (after_reply c e k out s)
unfolding on_skip
after_reply-Frame c e k none s = close_job-Frame k.job [] s
after_reply-Frame c e k (some t) s = on_transcript-Frame c e k t s

finish_reply-Frame :
    (c : Config) (u : Unicode) (strip : Text → Text) (e : Env) (p : Pending Submission) (r : Reply)
    (s : Session)
    → Frame s (finish_reply c u strip e p r s)
unfolding finish_reply
finish_reply-Frame c u strip e p r s =
    let a : AsrMonitor Submission = (AsrMonitor.transcribe u strip r s.asr).0 in
    Frame-trans {t = record s { asr = AsrMonitor.release p.ticket a }} (ground arith) (
      after_reply-Frame c e p.callbacks (AsrMonitor.transcribe u strip r s.asr).1
        (record s { asr = AsrMonitor.release p.ticket a }))

pub on_reply-Frame :
    (c : Config) (u : Unicode) (strip : Text → Text) (e : Env) (ticket : ℕ) (r : Reply)
    (s : Session)
    → Frame s (on_reply c u strip e ticket r s)
unfolding on_reply
on_reply-Frame c u strip e ticket r s = go (find ticket s.asr.inflight)
  where
    go : (o : Option (Pending Submission)) → Frame s (reply_to c u strip e o r s)
    go none = Frame-refl s
    go (some p) = finish_reply-Frame c u strip e p r s

pub worker_take-Frame : (s : Session) → Frame s (worker_take s)
unfolding worker_take take_from start_job
worker_take-Frame s = ground arith

pub worker_type-Frame : (e : Env) (s : Session) → Frame s (worker_type e s)
unfolding worker_type dispatch
worker_type-Frame e s = ground arith

pub flush-Frame : (c : Config) (e : Env) (s : Session) → Frame s (flush c e s)
unfolding flush
flush-Frame c e s = ground (arith, flushed e.flushed)
  where
    told : Session
    told = emit flush_audio s

    flushed : (o : Option (List ℕ)) → Frame s (flushed_utterance c e o told)
    flushed none = ground arith
    flushed (some pcm) = Frame-trans {t = told} (ground arith) (on_utterance-Frame c e pcm told)
