-- ===== src/Lib.antt =====
-- The device tree of the Xiaomi camellia: the HALs and the start-up code that it overrides. Seven
-- parts are modelled.
--
-- * sensors/HalProxy.cpp and sensors/HalProxyCallback.cpp, the multi-HAL proxy, in Sensors:
--   Handle (setSubHalIndex and its inverses), Wakelock (the shared wake lock with its thread),
--   EventQueue (postEventsToMessageQueue and the pending writes thread, with what it gives back
--   in Dropped), SensorList (initializeSensorList), Dynamic (the dynamic sensors), Callback
--   (processEvents and postEvents), Proxy (the calls of the HAL), Initialize (initializeCommon),
--   Stop (stopThreads and the loops of the two threads, move by move), Loading (the constructors,
--   the configuration file and the lists of sensors) and Debug (the dump). Proxy collects the
--   parts in its record HalProxy, and System is what happens to it: a relation Step with one
--   constructor for each stretch of code that a sub-HAL, a thread of the proxy or the framework
--   runs under the mutexes, and the states that it reaches. An initialization, which holds no
--   mutex of the queue, is one step there and is taken apart in System.Parts and System.Lost,
--   where posts go on between its parts.
-- * usb/UsbGadget.cpp, in Usb.Gadget: VidPid (validateAndSetVidPid), Links and Setup
--   (setupFunctions), TearDown (tearDownGadget), Functions (the constructor and the calls, with a
--   monitor that still runs) and Monitor (monitorFfs, and displayInotifyEvent in Display).
--   Usb.World is the system below them: each call that can fail is logged with its answer, and
--   the answers are an arbitrary function.
-- * usb/Usb.cpp, in Usb.Port: Role (the names of roles, getCurrentRoleHelper), Report
--   (getPortStatusHelper), Switch (switchRole, switchMode), Callback (setCallback,
--   queryVersionHelper), Uevent (uevent_event, with its buffer in Buffer) and Work (the loop of
--   the worker thread, with the signal that ends it, move by move, in Signal).
-- * fingerprint/BiometricsFingerprint.cpp, in Fingerprint: Filters (the translations of numbers),
--   Device (openHal, the constructor and the calls) and Notify (notify).
-- * libinit, in Init: Utils (libinit_utils.cpp), Variant (libinit_variant.cpp and the variants of
--   init_xiaomi_camellia.cpp) and Heap (libinit_dalvik_heap.cpp and vendor_load_properties).
--   power/power-mode.cpp is in Power.
-- * The main functions of sensors/service.cpp, usb/service.cpp and fingerprint/service.cpp, in
--   Services. libshims/libshim_sink.cpp is in Shims.
--
-- Base holds what the parts share: tests, lists, bit fields, texts and association lists. Tests
-- has runs on small inputs.
--
-- State is passed explicitly. Code that other threads run is a list of calls in any order, with
-- one call for each stretch of code that runs under a mutex without giving it up. The number that
-- tells the gadget's monitor to end is taken to get through: after a write that failed its join
-- would not return. Calls of setCallback come one after the other. Sub-HALs, message queues,
-- vendor libraries, files, the kernel and the constants of the platform's headers are parameters;
-- what is assumed of them is a record or a hypothesis with a name (Platform.IsDocumented,
-- Modes.SwitchesMode). Handles and flags are 32-bit patterns; counts of events and times do not
-- wrap, except the count of the wake lock, which wraps at 2 ^ 64. Only the loop over the buffer
-- of a kernel event uses fuel, as much as the buffer has bytes, and each of its rounds takes at
-- least one. The other loops go over lists, or are cut at the points where they give up a mutex;
-- the wait for a partner goes over the list of its wake-ups.
--
-- Not modelled: logging but for displayInotifyEvent, the threads' creation, the wrappers of the
-- platform's queues, and configuration, overlays and policies, which hold no code.
pub mod Base
pub mod Fingerprint
pub mod Init
pub mod Power
pub mod Sensors
pub mod Services
pub mod Shims
pub mod Tests
pub mod Usb
