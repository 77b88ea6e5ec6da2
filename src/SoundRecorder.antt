-- ===== src/SoundRecorder.antt =====
-- c/sound_recoder_alsa: the WAV file writer of wav.c.
pub mod Device
pub mod Header
pub mod Layout
pub mod Record
pub mod Release
mod Examples
