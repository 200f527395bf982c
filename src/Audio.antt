-- ===== src/Audio.antt =====
-- internal/audio: the capture of frames, the ring of recent ones, the detector of speech and the cues.
pub mod Capture
pub mod Cue
pub mod Frame
pub mod RingBuffer
pub mod Vad
