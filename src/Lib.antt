-- ===== src/Lib.antt =====
-- microbit-dal: the device abstraction layer of the micro:bit.
--
-- The library models parts of the runtime that other code stands on. Each part is a record for its
-- state and one function for each operation of the source; theorems stand in child modules.
--
--   Heap          source/core/MicroBitHeapAllocator.cpp: microbit_create_heap, microbit_malloc (one
--                 heap: `malloc_in`; all heaps: `malloc`), microbit_free. Memory is a function from
--                 word addresses to 32-bit words; the free bit is bit 31 of an index word. The native
--                 allocator is a parameter. Blocks, FirstFit, Search, Malloc, Contract hold the proofs.
--   Listener      source/core/MicroBitListener.cpp and async_callback of
--                 source/drivers/MicroBitMessageBus.cpp, split where other fibers may run: `enter` is
--                 the code before the callback, `finish` the code behind it up to schedule(),
--                 `activate` what MicroBitMessageBus::process does with a listener.
--   MessageBus    source/drivers/MicroBitMessageBus.cpp: the list of listeners (add, remove,
--                 deleteMarkedListeners, elementAt), process, and the queue of events. A callback is
--                 modelled by the events that it sends (`sends`).
--   Button        source/drivers/MicroBitButton.cpp: one tick is one step; the clock is read at the
--                 three places where the code reads it, and the start time has 32 bits.
--   MultiButton   source/drivers/MicroBitMultiButton.cpp: the flags of `status` are Booleans, one record
--                 for each of the two buttons.
--   Image         source/types/MicroBitImage.cpp: one byte for each pixel; an `int16_t` coordinate is an
--                 integer without a bound. The memcpy of shiftLeft, whose regions overlap when more
--                 columns are kept than shifted out, is a parameter; the others copy apart.
--   Fiber         source/core/MicroBitFiber.cpp: a fiber is a number, a queue is the list that its
--                 links make, and forking, sleeping and waking move fibers among four queues. What
--                 the components do while the scheduler idles is a parameter (`idle`), and the loop
--                 that idles has a number of rounds.
--   SystemTimer   source/core/MicroBitSystemTimer.cpp and the idle components of MicroBitFiber.cpp: a
--                 table is a list of slots.
--   RingBuffer    The circular buffers of source/drivers/MicroBitSerial.cpp, with their contents as a list.
--   Serial        source/drivers/MicroBitSerial.cpp: the receive and the transmit interrupt, getChar and
--                 read; Serial.Port has send, sendChar, readUntil and the settings of the port. The bytes
--                 that arrive during a call are a list of bursts that the call is given, one for each of
--                 its tests of the buffer, and a call that would wait for ever returns `none`.
--   Storage       source/drivers/MicroBitStorage.cpp: get, put, remove and size over the page in use and
--                 the scratch page. A page is its header and its blocks of a key and a value; the words
--                 of the flash are not modelled, and what the flash controller does with an address
--                 behind the start of a page, which `remove` gives it, is a parameter. Pages holds the loops, Entries the list of pairs.
--   Radio         source/drivers/MicroBitRadio.cpp, MicroBitRadioDatagram.cpp and MicroBitRadioEvent.cpp:
--                 the receive interrupt, idleTick, and the two protocols. A frame that arrives, whether
--                 its checksum is right, and whether there is memory are arguments of the interrupt,
--                 and so are, for idleTick, the time and which events are registered for forwarding.
--   Text          source/core/MicroBitCompat.cpp: string_reverse and itoa over a buffer.
--   Display       source/drivers/MicroBitDisplay.cpp and inc/drivers/MicroBitMatrixMaps.h: the animations,
--                 which a tick of the timer moves on by a frame, and in Render the words that are written
--                 to the pins of the LED matrix. Image.Glyph has MicroBitImage::print; the font, the
--                 period of the timer, the numbers of the pins and the C library's memcpy are parameters.
--   RefCounted    source/types/RefCounted.cpp, and what ManagedString.cpp and PacketBuffer.cpp do to
--                 their pointers: copy constructor, operator =, destructor. The heap is a map from
--                 addresses to objects, and a handle is an address.
--   ManagedString source/types/ManagedString.cpp: constructors, substring, operator +, operator ==, charAt.
--   PacketBuffer  source/types/PacketBuffer.cpp: a packet is a counted object that can be written.
--   Accelerometer source/drivers/MicroBitAccelerometer.cpp: instantaneousPosture and updateGesture on the
--                 samples; Gestures has the rate of shake events, Filter the filter of postures.
--   Prelude       Boolean tests on numbers, lists, integers, and memcpy and memset on byte maps.
--
-- How the parts meet: a button's tick raises events, the multi-button is a listener of two buttons,
-- the message bus hands events to listeners, and each listener queues what it cannot handle yet.
-- The radio is an idle component of the scheduler, and passes events on between message buses.
-- The display draws on an image, which each of its frames pastes, shifts or prints a glyph into.
-- Strings and packets are handles on counted objects.
--
-- Fuel: the search for a block has the heap's end plus one as fuel, and so has the merging of free
-- blocks, since each round moves on by at least a word. A send of an event nests as deep as urgent
-- callbacks answer one another; its depth is a parameter, and the rank of events in Queue bounds it.
-- The rounds of sending through the serial port are fuel, and so are those of idleTick: two more than
-- there are bytes, and one for each queued frame.
--
-- Not modelled: interrupts inside an operation (the source masks them or runs on one core), the
-- stacks and registers of fibers, the registers of devices, the Bluetooth stack, debugging output
-- and panics. The pins and the other sensors have no module.
-- An image that is pasted has a buffer of its own: pasting it on itself is left out.

pub mod Prelude
pub mod Button
pub mod Heap
pub mod Listener
pub mod MessageBus
pub mod MultiButton
pub mod Image
pub mod Fiber
pub mod SystemTimer
pub mod Text
pub mod Display
pub mod RefCounted
pub mod ManagedString
pub mod PacketBuffer
pub mod Accelerometer
pub mod Radio
pub mod RingBuffer
pub mod Serial
pub mod Storage
