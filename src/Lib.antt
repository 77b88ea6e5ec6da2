-- ===== src/Lib.antt =====
-- Verification of the C programs of CodeSamples.
--
-- The repository is a collection of sample programs. The ones with logic of their own are modelled:
--
-- LinkedList models the singly linked list of c/utils (c/utils/src/list.c, c/utils/inc/list.h). Its
-- memory is a heap of nodes and list structures (LinkedList/Memory.antt); each function of the C file
-- is the definition of the same name in LinkedList.antt, a command on the heap that finishes, faults
-- (a NULL or freed address is read) or runs out of fuel. A loop takes a round of fuel for each
-- iteration. What malloc returns is an argument. `IsList` (LinkedList/Chain.antt) says that a heap
-- holds a list with given nodes and values.
--
-- GmailCalendar models c/gmail-calendar, which reads the events of a Google calendar. Util.antt and
-- Files.antt are src/util.c, Http.antt is src/http_helper.c, Loopback.antt is src/loopback.c, and
-- Oauth/Config.antt and Oauth/Flow.antt are src/oauth.c; main.c calls oauth.c, oauth.c and calendar.c
-- call http_helper.c and util.c, and the authorization flow also calls loopback.c. What these files
-- take from outside (the operating system, OpenSSL, http-c) is the record `Platform`
-- (GmailCalendar/Platform.antt): each call is an event of a history, and what a call answers may
-- depend on the whole history before it; a header of a request is an event that says whether it had
-- room, which the code does not look at. The JSON reader of common_lib_c is the abstract record `Json`
-- (GmailCalendar/Json.antt). Messages on stderr are left out. The write loop of write_file_secure runs
-- on fuel: a round for each byte and one more are enough. The threads of loopback.c are a sequence:
-- the requests handled before the wait, and for each wakeup the requests handled before it.
-- Calendar.antt is src/calendar.c, with the walk over an array of common_lib_c as a parameter, and
-- Main.antt is src/main.c, whose exit code is the result of `main`.
--
-- SoundRecorder models c/sound_recoder_alsa/wav.c: Header.antt the WAV header, Record.antt recordWAV
-- as a command on a history of ALSA, memory and file calls (Device.antt). The recording loop counts its
-- own rounds down.
--
-- TimeSpan models c/TimeSpan/timespan.c on exact integers (Base/Int.antt), except for the conversions
-- to int, which wrap. Timeout.antt is RunUntilSuccessOrTimeout: the arithmetic of
-- `double` (the record `Double`), the readings of clock() and CLOCKS_PER_SEC (the record `Clock`) are
-- arguments, and one more unit of fuel than there are rounds is enough. DiffTimeSpan has no body.
--
-- TimeEx models isLeapYear and SubtractTime of c/TimeEx/timeex.c, on exact integers too.
--
-- VideoCapture models c/video_capture_v4l2/capture.c: State.antt its globals, Yuv.antt the conversion
-- of a frame, Frames.antt xioctl up to mainloop, Setup.antt the functions around it, Main.antt `main`.
-- The driver, the memory, libjpeg and the files are the record `Camera` (Camera.antt), whose answers may
-- depend on the whole trace of calls before; `double` is the record `Double`. The options are what
-- getopt_long returns one after the other. The retries of xioctl and of the select loop run on fuel: a
-- driver may interrupt for ever; with a camera that answers one round is enough. Protocol.antt is the
-- specification: the streaming protocol of V4L2 with the ownership of the buffers, as a state machine
-- over the calls of a trace, and its children show that the program follows it. Delivery.antt and its
-- children show that the program returns.
--
-- YoutubeSearch models c/YoutubeSearch/ytsearch.c: Memory.antt the blocks that are live, Request.antt
-- the URL and the download, Page.antt the descriptions and the parser, Search.antt the search, the
-- addresses and `main`. What libcurl delivers, the links that myhtml finds in a page and the answers of
-- malloc and realloc are arguments; each of the three objects that a page needs of myhtml is a block. The use of memory outside of a block, of a null pointer or of an
-- uninitialised variable is a fault. All the loops are structural. The printing is left out.
--
-- Not modelled: the other samples, which mostly call libraries in a fixed order, the tests, and the
-- programs in other languages.
pub mod Base
pub mod GmailCalendar
pub mod LinkedList
pub mod SoundRecorder
pub mod TimeEx
pub mod TimeSpan
pub mod VideoCapture
pub mod YoutubeSearch
