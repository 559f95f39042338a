-- ===== src/Lib.antt =====
-- Rabbit Storage Explorer: browsing and transferring files on S3, SFTP, NFS and SMB storage, with
-- optional end-to-end encryption.
--
-- The parts, and the files of the repository that they model:
--
-- Base               what the models share: texts as lists of bytes, results, dictionaries, and
--                    calls that change a state and may fail (Base/Exec).
-- Crypto             src/crypto.rs. Layout: the sizes of the file format, with wire_len and
--                    plaintext_of_ciphertext of src/worker.rs. Stream: Encryptor, Decryptor,
--                    encrypt_bytes, decrypt_bytes. Names: encrypted file names. Vault: the vault
--                    file and the keys of a password.
-- Paths              the helpers that cut keys at slashes, of src/dir_view.rs, src/worker.rs and
--                    src/crypto.rs, and sanitize_rel, which keeps a download inside its folder.
-- Manifest           src/manifest.rs: the map of hashed names to real names and sizes that each
--                    encrypted directory has, its operations and its stored form.
-- Storage            the trait StorageBackend of src/storage/mod.rs. Defaults: the methods that it gives
--                    every backend. Nfs: the NFSv3 backend of src/storage/nfs.rs, with Nfs/Server
--                    for the calls of its client and what a server that is up does on them,
--                    Nfs/Files, Nfs/Folders and Nfs/Uploads for its operations, Nfs/Backend for the
--                    whole, and Nfs/Transfers for the worker's transfers over it. S3: the S3 backend
--                    of src/storage/s3.rs, with S3/Client for the requests, S3/Paced for the body of
--                    a limited upload and S3/CopySource for the source of a copy. Sftp: the SFTP
--                    backend of src/storage/sftp.rs, with Sftp/Client for the calls, Sftp/Uploads
--                    for the multipart uploads and Sftp/Connect for the host keys and the vault's
--                    place. Walk: what backends with folders share.
-- ManifestStore      src/manifest_store.rs: the buffer of manifests and its flushes (Plan, State,
--                    Ops), and a session of its calls (Session).
-- DirView            src/dir_view.rs: names on the backend, and the listing of a directory.
-- Worker             creating, deleting, moving and renaming, of src/worker.rs. Sizes: listing, folder
--                    sizes and the records of an upload. Folders: expand_folder.
-- Transfer           the transfers of src/worker.rs. Progress: struct Progress. Hub: TransferHub and
--                    the end of a task. Multipart: upload_multipart. Upload: upload_small and
--                    upload_one. Download: download_one. Retry:
--                    the loops around an attempt. Task: a download with its retries.
--                    Session: the reconnecting between attempts. Watchdog:
--                    guard_stall.
-- RateLimit          src/ratelimit.rs: the token bucket.
-- Tests              runs at concrete data, and the theorems at inputs that meet their hypotheses.
--
-- How they interact. A file name is encrypted by Crypto.Names and hashed by Manifest.hash_entry;
-- the manifest of the directory, itself encrypted by Crypto.Stream, says what the hash stands for.
-- ManifestStore reads and writes manifests through a StorageBackend; DirView joins a raw listing
-- of the backend with a manifest. Stateful code takes the state and returns the new one beside its
-- result; a transfer works on a Local, which is the backend, the local files and the progress that
-- the hub shares out; an operation of a session works on a World, which is the backend, the
-- buffer, the clock and the number of random prefixes drawn.
--
-- Parameters. The ciphers, the digest, the key derivations and the encodings are a record
-- Primitives, with what the code relies on in IsLawful, IsDigest and IsBytes; serde_json at a
-- manifest is a Codec; a backend is any StorageBackend; random prefixes and salts are arguments or
-- a function of a counter; what a backend promises of multipart uploads is IsMultipart, and of an
-- object that is read IsObject; the calls of the NFS client, the S3 client and the SFTP client are
-- the records NfsServer, S3Client and SftpClient; what the protocol says of a server that is up is
-- IsServer and, for a directory, IsDirectory, and of an S3 service that is up IsBucket; IsServer
-- also says that a read that is not at the end of a file gives a byte, which the protocol does not require; cancellation tokens and f64 numbers are the records CancellationTokens
-- and Float, and the answers of a token are functions of the check; the lower case of a name is an
-- argument. Tests/Toy has functions that meet the laws.
--
-- Numbers and bounds. Integers are natural numbers, and wrap at 2^32 or 2^64 where the source may;
-- the rate limiter counts tokens exactly, in billionths of a byte, where the source has floats.
-- `chunks_from` runs on the length of its input, which is fuel enough, since a chunk takes at
-- least one byte. `upload_loop` runs on the length of the file and one, and `plain_loop` on that
-- of what the reader has and one, which is enough as each round but the last takes at least one
-- byte; the other loops of a transfer are structural. `walk` of expand_folder and `rebuild` of
-- Session take their fuel as an argument, as a tree on the backend and a server that is down have
-- no bound of their own. `acquire` polls at given times: that it is granted or never granted is
-- proved of every list of times. Over NFS the loops that write run on the length of what they write
-- and `read_front` on the length wanted; the loops that a server ends (`read_all`, `pump`,
-- `list_pages`, `list_tree`, `empty_tree`) take their fuel as an argument.
--
-- Not modelled: the windows (src/ui), the SMB backend (src/storage/smb.rs), the mount of an NFS
-- export, the opening of an S3 client, the authentication of an SFTP session, the message loop and
-- the remaining operations of src/worker.rs (connecting, the information on a folder, the expansion
-- of local paths), the settings files, the erasure of keys from memory, the waits of the limiters
-- inside a transfer, failures of the local disk other than a missing file, failures to read or
-- write the settings and the known hosts, the instant between the steps that end a task in the hub,
-- and, of the interleavings of operations on the buffer, any but those of Session, where one flush
-- runs at a time, and of Recorded, where two writes end in the wrong order.
pub mod Base
pub mod Crypto
pub mod Paths
pub mod Manifest
pub mod RateLimit
pub mod Storage
pub mod ManifestStore
pub mod Tests
pub mod DirView
pub mod Worker
pub mod Transfer
