-- ===== src/Lib.antt =====
-- A model of the core of RtMidi17, a C++17 library for MIDI messages, MIDI files and MIDI ports,
-- and theorems about it.
--
-- The program's parts and their modules:
--
-- * MessageType, MetaEventType, Message, Message/Meta (rtmidi17/message.hpp): a message is a
--   record of its bytes and its time stamp; the static constructors are functions of their
--   `uint8_t` and `int` arguments, the queries return an Outcome, since they index the byte vector
--   without a check. Message/Command, Message/Query and Message/Meta/Laws hold the proofs.
-- * Reader (rtmidi17/reader.cpp and reader.hpp): Reader/Cursor is the moving `uint8_t const*&` as
--   the list of the bytes behind it, Reader/Event is `parseEvent`, Reader the loops of
--   `parse_impl` with `parse` and `get_end_time`. The messages on `std::cerr` are a log.
--   Reader/Progress, Reader/Rounds and Reader/Termination are about the pointer and the loops,
--   Reader/Decode and Reader/MetaEvent about single events, Reader/EndTime about `get_end_time`.
-- * Writer (rtmidi17/writer.cpp and writer.hpp): Writer/Primitives has the integers and the
--   variable length, Writer the object and `write`, whose stream is the list of the bytes put out.
--   Proofs are in Writer/VariableLength and Writer/Events.
-- * MidiFile (both together): what the reader makes of a file of the writer. Encode gives the
--   track data as a concatenation, Tracks follows the loop over a track, Chunk and RoundTrip the
--   chunks and the file.
-- * Queue (rtmidi17/detail/midi_api.hpp): the ring of `midi_in_api`. Queue/Fifo is a bounded
--   first-in first-out list, Queue/Ring the invariant of the ring, Queue/Refine one call,
--   Queue/Client every sequence of calls.
-- * Api, MidiApi (rtmidi17/rtmidi17.hpp, rtmidi17/detail/midi_api.hpp): the enumerations;
--   `midi_api` with `error` and `warning`, each up to the call of the client's callback and behind
--   it. MidiApi/Reports runs sequences of reports, of which some come from the callback itself.
-- * MidiIn (rtmidi17/detail/midi_api.hpp): `in_data` and the calls of `midi_in_api`.
-- * Facade (rtmidi17/rtmidi17.cpp): the backends of a configuration, the search of the
--   constructors of `midi_in` and `midi_out`, and in Facade/Calls the members that pass calls on.
--   A backend's objects are a parameter. `midi_exception` is thrown as the `runtime_error` that it
--   is derived from.
-- * Delivery (rtmidi17/detail/*.hpp): what every input handler does with a message at its end, a call
--   of the client's callback or a push into the queue. The handlers work on a Sink, the shared
--   `in_data` with a log of the deliveries; Delivery/Fifo, Delivery/Kept and Delivery/Total say what
--   a delivery does to it.
-- * Wire (the MIDI specification): whole messages, their lengths, the messages that `ignore_types`
--   filters, and Wire/Pieces the pieces of system exclusive messages. The handlers are compared to it.
-- * CoreAudio (rtmidi17/detail/coreaudio.hpp): `midiInputCallback`, a packet at a time.
--   CoreAudio/Input/Short is about whole messages, Begun and Sysex about messages in pieces, Rounds
--   and Ends about the loop. CoreAudio/Output is `send_message`, with its packets in Packets;
--   CoreAudio/Ports the constructors, ports and destructors of input and output, where `live_ports` and
--   `live_endpoints` count what the object has made and not disposed of.
-- * Jack (rtmidi17/detail/jack.hpp): Jack/Input is `jackProcessIn`, an event at a time. Jack/Ring is an
--   interface of JACK's ring buffers with their laws, and Jack/Output the output over it: what the
--   client's thread writes, a cycle of `jackProcessOut`, and `close_port` with its semaphores.
--   Jack/Output/Threads interleaves the two threads, Fifo is about what they send, Cut about a full
--   ring buffer, Close about the semaphores. Jack/Ports has the ports of input and output, and
--   Jack/Loopback connects an output to an input.
-- * Winuwp (rtmidi17/detail/winuwp.hpp): Winuwp/Observer is the port list that follows the device
--   watcher, Winuwp/Ports the ports, `send_message` and the handler of received messages.
-- * Winmm (rtmidi17/detail/winmm.hpp): Winmm/Input is `midiInputCallback`, Winmm/Output
--   `send_message`, Winmm/Loopback both together; Winmm/Observer is the poll of the observer,
--   Winmm/PortName `get_port_name` of a build that does not define
--   RTMIDI17_DO_NOT_ENSURE_UNIQUE_PORTNAMES, Winmm/Ports `open_port` and `close_port` of the input, and
--   Winmm/OutPorts the ports of the output.
-- * Alsa (rtmidi17/detail/alsa.hpp): Alsa/PortInfo is `portInfo`, Alsa/PortName `get_port_name`,
--   Alsa/Time the time between two events, Alsa/Input a round of `alsaMidiHandler`, Alsa/Ports the
--   opening and closing of ports of the input and Alsa/OutPorts of the output, where
--   `data.subscription` is null, held or freed, Alsa/Coder an interface
--   of the library's event coder with its laws, Alsa/Output `send_message` over it, and Alsa/Observer
--   the observer's `handle_event`.
-- * Dummy (rtmidi17/detail/dummy.hpp): the backend that does nothing, behind the facade.
-- * Semaphore (rtmidi17/detail/semaphore.hpp): the counter, with each call as one step.
-- * Base (helpers): shared lists, bit masks, machine words, integers, and the results of fallible
--   code: a value, a thrown exception, or undefined behaviour.
-- * Tests (no code): runs of the model and instances of the theorems.
--
-- Bytes and words are natural numbers below a power of two, with each wrap-around written out as a
-- remainder. A read behind the buffer of `parse` has the status `faulted`, an exception that
-- leaves `parse` the status `thrown`. The loop over a track runs on fuel, one more than the bytes
-- that are left of the file; every round takes a byte at least, so it never runs out. Time stamps,
-- which the files do not use, are numbers. The `double` sums of `get_end_time` are integers, rounded
-- by an argument that is exact below 2 ^ 53. Moving the pointer behind the buffer without a read
-- through it counts as no fault.
--
-- The answers of the system libraries are arguments of the definitions that use them. The loop over a
-- packet of CoreAudio runs on as many rounds as the packet has bytes, which is enough below 2 ^ 16 - 1
-- of them. The handlers keep times as whole numbers of the unit that the library counts in, before the
-- multiplication that makes a `double` of it. Client callbacks of input handlers are taken to return
-- and to leave the shared data alone. `undefined` stands for undefined behaviour, and in Alsa/Input
-- for a failed assertion, too.
--
-- The loop of `jackProcessOut` runs on as many rounds as there are bytes of sizes, of which each round
-- takes one at least, and that of CoreAudio's `send_message` on as many as the message has bytes.
--
-- Not modelled: of ALSA the polls of the two threads, of CoreAudio the names of endpoints and the
-- `alloca` of a packet list, which may exhaust the stack for a long message, of WinMM the
-- thread that polls, of UWP the waiting for asynchronous calls, and else what are calls of system
-- libraries only; the facade's observer; the iterators of `message`; `write_float_be` and
-- `write_double_be`, which nothing calls; the test programs.

pub mod Base
pub mod MessageType
pub mod MetaEventType
pub mod Message
pub mod Reader
pub mod Writer
pub mod MidiFile
pub mod Queue
pub mod Api
pub mod MidiApi
pub mod MidiIn
pub mod Delivery
pub mod Wire
pub mod CoreAudio
pub mod Jack
pub mod Winmm
pub mod Winuwp
pub mod Alsa
pub mod Facade
pub mod Dummy
pub mod Semaphore
mod Tests
