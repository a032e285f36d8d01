-- ===== src/Lib.antt =====
-- The core of ospd-openvas, the daemon that runs OpenVAS scans and reports their results.
--
-- The program is a Python server. ospd/ is a framework: a client sends commands, the daemon
-- (ospd/ospd.py) keeps a queue of scans, starts a process for each, and stores the results in a scan
-- collection (ospd/scan.py) until the client fetches them. ospd_openvas/ fills the framework in for
-- the OpenVAS scanner. Here is modelled what the daemon computes itself.
--
-- Prelude: names of the libraries, Boolean tests, lists measured by native numbers, integers.
-- Py: what the program uses of Python's types. A `str` is the list of its code points (Py/Text), with
--   split, join, find, count and strip; `int` and `str` on texts (Py/Number); indices and slices with
--   negative positions (Py/Slice); exceptions as values (Py/Result); sorting (Py/Order); lists
--   of texts (Py/TextList);
--   dictionaries as association lists in the order of insertion (Py/Dict).
-- Network/Ports: the port functions of ospd/network.py, under their names. The loop over the dashes
--   and the two loops over the items are recursive functions of their own. Network/Ports/Compress is
--   `port_list_compress`; Check and PortString hold the lemmas about the check and about a string with
--   two headers; RoundTrip and Valid combine them.
-- Network/Targets: the target functions of the same file, from `target_to_ipv4` to
--   `target_str_to_list`. What socket does with addresses, and the pattern of a hostname, are the
--   parameter `Sockets`; addresses in packed form are lists of bytes.
-- VtFilter: ospd/vtfilter.py. The word characters of the pattern and the formatting of values by a
--   subclass are parameters.
-- Scan: the scans. Scan.antt has the data: a scan's dictionary is the record `ScanInfo`, where a key
--   that may be missing is an option, and the table is a dictionary of these. Scan/Pickle is
--   ospd/datapickler.py, over a dictionary of files; pickle and sha256 are the parameter `Pickler`.
--   Scan/Collection has the operations of `ScanCollection`, each from table to table or exception;
--   Scan/Creation has `create_scan` and `unpickle_scan_info`, which also use the files. Scan/Results,
--   Scan/Invariant and their children hold the theorems. Scan/Queue is the part of ospd/ospd.py
--   that creates, starts, stops and deletes scans: `Daemon` is the state, a call gives an exception
--   or nothing, and the daemon then; the clock and the free memory are arguments, read once for
--   each scan of the loop. Scan/Hosts is `sort_host_finished` of the same file. Scan/Counts has the
--   counts of hosts and the progress of ospd/scan.py; its quotient is a float in the source, which is
--   exact, cut to an integer, for numbers below 2 ^ 53. Scan/Adding is ospd/resultlist.py and the
--   methods of ospd/ospd.py that add a result. Scan/Running is `start_scan`, around `exec_scan` of a
--   subclass, which is a parameter, and the clean-up and the check of scans.
-- Kb: ospd_openvas/db.py. Redis is the interface of Kb/Redis: a type of states, the commands that the
--   code sends, and their documented effects as records of laws. Kb/OpenvasDb, BaseKbDb, KbDb and
--   MainDb are the classes of these names; a database stands for itself by its index, and a context is
--   an index and an encoding. Kb/Delivery, Allocation and Status hold the theorems, with the searches
--   through the databases in Kb/First; a server in memory stands in Kb/Server.
-- Lock: ospd_openvas/lock.py. The file system and `flock` answer as arguments; Lock/Exclusive has
--   several processes that share one lock, as a step relation, where the kernel sees the lock granted
--   and the file closed.
-- Prefs: ospd_openvas/preferencehandler.py. Prefs/Credentials is `build_credentials_as_prefs`, with a
--   function for each service and the loop with its two flags; what Unicode says of numerals is the
--   parameter `Numerals`. Prefs/AliveTest has the bit field of the alive test and the preferences of
--   the ping VT; Prefs/Prepare has the methods that read the scan and write into its knowledge base;
--   Prefs/VtParams is `_process_vts`, without the VT groups.
-- Report: `report_openvas_results` and `report_results` of ospd_openvas/daemon.py, from the messages in
--   a knowledge base to the scan table, with `get_severity_score` of ospd_openvas/vthelper.py; the VTs
--   and the scores of vectors are the parameter `Vulnerabilities`. Report/Expected says what each
--   message should add, Report/Read that it is read so, and Report/Finish has the end of the call.
--
-- Every function is structurally recursive, so no fuel is used; `str` divides by 10 on a proof that
-- this ends, and `|` is computed on as many bits as the address has.
--
-- Not modelled: sockets, TLS, XML, logging and the command line; the body of a scan's process, which
-- runs beside the daemon; the proxies of multiprocessing, which are taken as the dictionaries that
-- they stand for; name resolution, the VT groups, and the parts of ospd_openvas that talk to
-- MQTT and the scanner; the address of the Redis server and the attempts to connect to it. Ports,
-- counts and times are natural numbers; `max_res` is not negative.
pub mod Prelude
pub mod Py
pub mod Kb
pub mod Lock
pub mod Network
pub mod Prefs
pub mod Report
pub mod Scan
pub mod VtFilter
