-- ===== src/MidiFile.antt =====
-- rtmidi17/writer.cpp and rtmidi17/reader.cpp together: files that are written and read back.
pub mod Integers
pub mod Encode
pub mod Tracks
pub mod Chunk
pub mod RoundTrip
