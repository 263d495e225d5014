-- ===== src/Lib.antt =====
-- Verification of kssio, a C++ library of helpers for files, streams and networking.
--
-- The parts of the program, and the files that model them:
--
-- * Byte order, packing and addresses. Sources/utility.cpp and utility.hpp are Net/ByteOrder and
--   Net/Pack: a float or a double is its bits, an array of bytes a list. The classes IpV4Address
--   and MacAddress of Sources/interface.cpp and interface.hpp are Net/Address, which packs and
--   unpacks by Net/Pack and reads and prints numbers by Net/Text, a model of `stoul` and of the
--   output of numbers by the standard library. The tokenizer is code of another library, and so a
--   parameter; the round trips assume that it splits a text at each separator.
-- * Network interfaces. The searches of Sources/interface.cpp are Net/Interface, over the answers
--   of `getifaddrs`, `socket` and `ioctl`; they read hardware addresses by Net/Pack. The callback
--   of forEachInterface is a function on the state that it captures. Net/Interface/Apple is the
--   version for Apple systems of what reads the hardware addresses, Net/Interface/Objects the objects
--   of the class as they are copied and moved.
-- * Ports. Sources/socket.cpp is Net/Socket, over the answers of `bind`. The loop over the ports
--   runs as many rounds as there are ports in the range.
-- * The poller. Sources/poller.cpp is Poller: a run takes a list of rounds, each with the calls of
--   add, remove and removeAll that come before it, the delegate's answers and the result of `poll`;
--   it gives what the delegate and the system see. The mutex makes each call one step. Poller/Direct
--   tells what a round has to do, without the arrays of the loop. Poller/Owners has the pollers of a
--   program as a store, in which they are constructed, moved and destroyed.
-- * Rolling files. Sources/rolling_file.cpp is File/RollingFile: a method is a function on the
--   object's state that returns or throws, with the state as it is then. A deleted stream is kept
--   with a mark, so that a pointer to it can be told. Its child Refinement follows a sequence of
--   writes and what it leaves in each file.
-- * File utilities. Sources/fileutil.cpp and fileutil.hpp are File/Stat (the questions about a
--   path), File/Path (base name, directory, temporary files) and File/Process (writeFile,
--   processFile, the functionals and copyFile). The loops of LineByLine and copyFile run on fuel:
--   a round of the first takes a character of the text at least, and one of the second a byte of
--   the file at least, unless it meets the end or the reading fails.
-- * Binary files. Sources/binary_file.cpp is File/Binary, over File/CFile, a model of what the C
--   library documents of a `FILE*`: a method is a function on the stream that returns or throws, with
--   the stream as it is then. Two rounds of the loops of readFully and writeFully are enough, since
--   a short read or write sets an indicator that ends them. The template FileOf of binary_file.hpp
--   is File/Records, for records of some bytes; a loop over a file of records runs the iterator of
--   Stream/Iterator on it. File/Binary/Handles has the objects of the class as a list, with the
--   streams that they hold and those that have been closed.
-- * Directories. The class Directory of Sources/directory.cpp and its iterator are File/Directory: a
--   `DIR*` is the list of the answers that `readdir` still has. Its loops take a round for each entry
--   and one or two more; an exception in begin or end, which are noexcept, ends the program. Its functions ensurePath and removePath are File/Ensure and File/Removal, on a
--   system that answers by the calls it has had (File/System); removePath runs the loop over a directory,
--   and its fuel is the depth of the tree and the rounds of its loops. File/Guards is what is closed by
--   the copies of an iterator, and of FiledesGuard and FileGuard of Sources/fileutil.cpp.
-- * Walks of a directory tree. Sources/file_tree_walk.cpp is File/Walk, over the entries that the
--   library `fts` gives; it asks questions about paths by File/Stat and File/Path.
-- * The JSON writer. Sources/simple_json_writer.hpp is Stream/Json: a stream is the text written
--   to it, and a generator of children is the list of nodes that it gives. Stream/Json/Lexer and
--   Stream/Json/Tokens are a strict reader of JSON, by which a written document is judged.
-- * The XML writer. Sources/simple_xml_writer.hpp is Stream/Xml, on the same terms; the level that
--   `encode` counts down is an integer. Stream/Xml/Lexer and Stream/Xml/Tokens are a reader of tags, by
--   which a written document is judged; Stream/Decode reads the escapes of both writers.
--   Stream/Attributes has `operator[]` and `clear` of the nodes of both; the assignment to a key of a
--   `std::map` is a parameter.
-- * `capture` of Sources/utility.cpp is Stream/Capture, over a stack of the buffers that are alive; and
--   Sources/eai_error_category.cpp is Net/EaiError, with the texts of the system as parameters.
-- * Iterators. The InputIterator of Sources/iterator.hpp is Stream/Iterator, over an interface for
--   the stream; a range loop over it takes fuel for each value and two rounds more. The
--   OutputIterator is Stream/Output.
--
-- Prelude has the shared types: exceptions as values, results of calls that may throw, answers of
-- system calls, and texts as lists of character codes. A contract check throws, with the kind of
-- the contract; an `assert` is left out, as in a release build.
--
-- Not modelled: version.cpp and guessMimeType, which return constants; the hashes of addresses, which
-- are those of the standard library, like the order of a node's attributes; and what syslog prints.
pub mod File
pub mod Net
pub mod Poller
pub mod Prelude
pub mod Stream
