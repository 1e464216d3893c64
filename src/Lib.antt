-- ===== src/Lib.antt =====
-- Seekira plays video files and runs pipelines of image processing on them. This library models the
-- parts of it that decide what happens, and in which order: the reader of a video, its streams and
-- the queues in front of the decoders, the graph of a pipeline, its workers and its asynchronous
-- execution, and the tables of names.
--
-- - Common: numbers, lists, options, integers, equality, and hash maps as association lists (Dict),
--   whose order is the order of iteration.
-- - Packet, Queue, Demuxer (src/video/ffmpeg/decoding: data_packet.hpp, packet_queue.cpp,
--   demuxer_queue.cpp). Packet has a packet's times and flags, Queue is PacketQueue with its
--   counters, Demuxer is DemuxerQueue: read_packets_from_parser, fill_queue, read, enable_stream,
--   release_internal_data and, in Demuxer/Seek, seek. Parser is the interface to the parser of the
--   file (parser.cpp, a client of libavformat): a record of its operations and of the laws that the
--   demuxer relies on, namely that a packet that is read leaves less of the file and belongs to a
--   stream that is there.
-- - ParserFf (src/video/ffmpeg/decoding/parser.cpp): the reading of packets and their times
--   (Times), the chapters of a VOB file (Chapters), read_packet and read (Reading), and
--   read_frame_fixed of src/video/ffmpeg/utils/utils.cpp (Fixed), whose errors and end are the end
--   for Reading. Seeking is seek, with ffmpeg's seeks as operations. Wrapping and Shifting
--   have the proofs. Streams are known by their index, which ffmpeg keeps as an int.
-- - StreamReader (stream_reader.cpp of that directory): what each stream has asked for, the seek
--   that serves all of them, and in StreamReader/Streams the streams that are handed out. Stream
--   (stream.cpp): DemuxedStream, its packets, frames and its place after a seek; in Stream/Seeking
--   a stream's seek through its reader. Source is the demuxer's interface (interfaces/demuxer.hpp),
--   VideoStream a stream's (interfaces/stream.hpp), each with the laws that its clients rely on.
--   The decoder is a parameter, which may throw.
-- - DecoderVideo (src/video/ffmpeg/decoding/decoder_video.cpp): DecoderVideoFF, with ffmpeg's codec
--   and scaling as a record of operations. Decoding is decode, Timing is about the clock and the
--   frames that are held, Receiving about decode_internal, Delivery and Runs about decode.
-- - Reader (src/video/ffmpeg/reader): ReaderFF. Reader has its state and the reading of a frame,
--   Position set_position_impl and the steps, Worker the events and a turn of the worker thread,
--   which is cut where it waits. Its observers are Events lists; the calls that are queued for them
--   are a list in the state.
-- - Graph (src/core/graph): nodes with their parents and children, and the adjacency matrix.
-- - BasePipeline (src/proc/pipeline/pipeline.hpp): init_branches, which cuts a graph into branches
--   by the operations of a kind of pipeline, with the nodes at which branches begin in Branching and
--   Beginnings, the branches that come out in Chains, a test of weights on a graph in Weights, and
--   the loop on a cycle in Cycles. SyncPipeline
--   (src/proc/pipeline/sync/sync_pipeline.hpp): the branches of a synchronous pipeline as a map
--   from ids to lists of nodes, and process.
-- - FakeCamera (src/video/camera/camera_fake, and open_file of src/video/frame/utils): a camera of
--   image files. Rounds is about its frames,
--   Streaming about the thread that shows them, whose loop is cut into rounds in which stop may
--   come.
-- - Events (src/core/base/interfaces/event_handler_list.hpp): the observers of a component.
-- - Worker (src/core/threading/thread_pool_worker.hpp): a queue of data and the thread that takes
--   them. The thread's loop is cut at its two waits, so that any sequence of its steps and of calls
--   from other threads is a run (Worker/Order). The handling of one piece of data is one step: it
--   touches only the exceptions and what the observers change. stop_worker is cut at the join, and
--   reset_exceptions between its two locks.
-- - ThreadPool (src/core/threading/thread_pool.hpp): the workers of a pool, and its start. Of stop
--   only the loop over the workers is modelled: an iteration of the pool's own thread may still be
--   in progress then, since that thread is joined last.
-- - PipelineBranch, Pipeline (src/proc/pipeline, src/proc/pipeline/async): the branches of an
--   asynchronous pipeline. Pipeline has the data and thread_pool_iteration, Pipeline/Finishing
--   on_finished and the making of branches. Both hold one mutex, so each is one step. A branch
--   hands its data to its Worker, whose observer is the pipeline; the children of a branch are
--   found in its Graph.
-- - Names (src/core/base/utils/find_pair.hpp) and PixelFormat (src/video/frame/interfaces): values
--   of enumerations and their names.
-- - Tests: a small file, graph, pipeline, codec and camera, and theorems at them.
--
-- A function whose answer is an Option throws where it is `none`, except where its comment gives
-- another reason. Loops that depend on the file run on fuel. read_packets_from_parser has one more
-- than the packets that are left, fill_queue two more, and both are shown never to run out. seek
-- tries 65 times: its step back doubles, so the time is reached before that if it is below 2 ^ 63.
-- The seek of StreamReader has fuel for nine tries, which are enough: its step back doubles up to 16
-- seconds and it goes to 0 once it is 60 seconds back. get_seek_result has one try more than the
-- packets that are left, read_frame three, and set_position_impl may read twelve frames for each
-- that is left and twelve more. init_branches and process of a synchronous pipeline run on fuel
-- above the weight of each node, where a node weighs more than its children together; such weights
-- are what keeps a graph from having cycles. The decoder's loop over the codec's frames has fuel
-- for the frames that the codec can hold, and decode has two rounds. seek of the parser has the
-- source's 50 tries near the start. The clock of the decoder is an integer without bound, so that
-- sums do not overflow. Stream indices and counters are natural numbers and times are integers
-- without bound; the source has int and int64_t.
--
-- Not modelled: a failed allocation in the parser; the files' formats, decoding and the conversion
-- of frames, which libavformat, libavcodec, libswscale and OpenCV do; neural networks (onnxruntime,
-- openvino); the user interface; logging and the reading of JSON; the trackers under
-- src/thirdparty, which are copies of other projects; the reading of a pipeline's settings and the
-- making of its nodes. Of the parser of files, the opening of a file; of a reader, the opening of a
-- file and the start of its thread.
pub mod Common
pub mod Packet
pub mod Queue
pub mod Parser
pub mod DecoderVideo
pub mod Demuxer
pub mod StreamReader
pub mod Source
pub mod Stream
pub mod FakeCamera
pub mod Graph
pub mod Names
pub mod PixelFormat
pub mod Events
pub mod Worker
pub mod ThreadPool
pub mod PipelineBranch
pub mod Pipeline
pub mod Tests
pub mod VideoStream
pub mod Reader
pub mod ParserFf
pub mod BasePipeline
pub mod SyncPipeline
