-- ===== src/Lib.antt =====
-- The server and the fuse client of the distributed network block device, version 3 (dnbd3), and what
-- their parts keep right.
--
-- The program serves disk images over the network in blocks of 4 KiB. As a proxy it holds partial
-- copies: a cache map says which blocks are there, a request for a block that is not there is
-- relayed to an uplink server, and a reply fills the copy and answers all clients that wait for it.
--
-- The parts and their files:
-- Image (src/server/globals.h, src/server/image.h): the image record and its sizes;
--   Image/CacheMap (src/server/image.c): `image_updateCachemap` is `update_cachemap`,
--   `image_isHashBlockComplete` is `is_hash_block_complete`, `image_isComplete` is `is_complete`,
--   `image_getCompletenessEstimate` is `completeness_estimate`.
-- Net (src/server/net.c): `get_block` is the case CMD_GET_BLOCK of `net_handleNewConnection`, up to
--   what is sent; a relayed request goes on to Uplink.
-- Uplink (src/server/uplink.c, src/server/globals.h): the queue of relayed requests.
--   `uplink_removeClient` is `remove_client`; the dispatch of `uplink_handleReceive` is
--   `handle_reply`; the critical section of `uplink_request` is `enqueue`.
--   Uplink/Link: all of `uplink_request` is `request`, `uplink_sendRequests` is `send_requests`.
-- Uplink/Receive (src/server/uplink.c): `uplink_handleReceive` is `handle_receive`; it ties together
--   Image/CacheMap, the dispatch of Uplink and Uplink/Replication.
-- Uplink/Replication (src/server/uplink.c): `uplink_sendReplicationRequest` is
--   `send_replication_request`, `uplink_findNextIncompleteHashBlock` is
--   `find_next_incomplete_hash_block`.
-- Integrity (src/server/integrity.c): `integrity_check`, and `work_entry` for what `integrity_main`
--   does with one entry of the queue; it checks what Image/CacheMap queues.
-- Slots (src/server/net.c, src/server/image.c): `addToList`, `removeFromList` and the like loops over
--   `_images`; ImageList (src/server/image.c) uses them: `image_get`, `image_lock`, `image_release`,
--   `image_remove`, `image_addToList` are `get`, `lock`, `release`, `remove`, `add_image`.
-- Serialize (src/serialize.c): the buffer of a payload, `serializer_get_uint16` being `get_uint16`
--   and so on; it carries the messages of Select.
-- Select (src/shared/protocol.h, src/server/net.c): `dnbd3_select_image` is `select_image`, the
--   handshake of `net_handleNewConnection` is `handshake`, `dnbd3_select_image_reply` is
--   `select_image_reply`.
-- Threadpool (src/server/threadpool.c): `threadpool_run` is `run`, a round of `threadpool_worker` is
--   `work`, `threadpool_init` and `threadpool_close` are `init` and `close`.
-- AltServers (src/server/altservers.c): the list of alternative servers, `altservers_add` being `add`,
--   `altservers_serverFailed` `server_failed`, `altservers_updateRtt` `update_rtt`; AltServers/ForClient
--   and AltServers/ForUplink: `altservers_getListForClient` and `altservers_getListForUplink`;
--   AltServers/Pending: the table of uplinks that wait for a measurement, which `altservers_main` works
--   through; AltServers/Measure: what it does for one of them, up to the decision that the uplink reads.
-- Fuse (src/fuse/connection.c): the linked list of requests that fuse waits for; Fuse/Client: how
--   `connection_read`, the receiving threads, `switchConnection` and direct probes use it;
--   Fuse/Servers: `addAltServers`, `sortAltServers`, and in `probe_server` and `decide_switch` what
--   `probeAltServers` does to the entry of a server, and its decision.
-- UrlDecode (src/server/urldecode.c): `urldecode` on the memory that it changes in place; UrlDecode/Strings
--   says what a query means.
-- Host (src/types.h, src/server/helper.h): the comparison of addresses.
-- Prelude: Boolean tests, lists with native indices, the bits of a byte, machine words.
--
-- Conventions. An operation runs alone: locks are left out, and where the code gives up a lock in the
-- middle, no other thread comes in between. A null pointer and a descriptor of -1 are `none`. Log
-- messages and statistics are left out. `x & ~(m - 1)` and `x & (m - 1)` for a power of two `m` are
-- written with `/` and `%`; sums and differences of uint64_t wrap at 2 ^ 64, casts to int cut off at
-- 2 ^ 32. A failed assert is `none`.
-- Fuel. The loop that marks blocks has one unit for each block up to the end of the range, the loops
-- over a hash block 4096, those over a byte of the map 8, the work on an entry of the check queue one
-- for each hash block, the searches of the replication the bytes of the map, the loops of the URL
-- decoder the bytes that are left; no loop has more rounds. Removing a request of the fuse client is
-- given more steps than requests are pending.
-- Bounds. Images have at most 2 ^ 34 blocks, so that indices into the cache map fit an int.
-- Counters of failures stay far below 2 ^ 31, as they grow by 5 in 5 seconds at most.
-- Results of system calls, of sending and of receiving are arguments, as are the images that the
-- handshake is given by the image list.
-- Not modelled: the file of alternative servers, the HTTP interface, the configuration files, loading and
-- cloning of images, the system calls themselves, the copies of other projects (picohttpparser, the
-- CRC-32 code, the reader of ini files), the other commands of clients, the main loop of an uplink, the
-- kernel module, the command line client, and the connections of the fuse client.
pub mod Prelude
pub mod Host
pub mod Image
pub mod Net
pub mod Uplink
pub mod Slots
pub mod Integrity
pub mod ImageList
pub mod Serialize
pub mod Select
pub mod Threadpool
pub mod AltServers
pub mod Fuse
pub mod UrlDecode
