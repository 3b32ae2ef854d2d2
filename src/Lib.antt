-- ===== src/Lib.antt =====
-- GDrive_Turbo_Copy copies a Google Drive folder tree on the server's side, in runs that can be
-- resumed. This library models the package in src/gdrive_turbo_copy and proves what makes its
-- parts correct.
--
-- The parts and how they interact: the command line makes a configuration, which is checked and
-- whose links are read; every call of Drive goes through a retry loop, which classifies errors;
-- for each file of the source the engine looks for a match in an index of the destination folder,
-- and otherwise copies the file, verifies the copy and enters it in its books; now and then it
-- saves the books as a resume log in the destination.
--
-- - Models, with DriveFile, AppProperties, Config and Records: models.py, and the state of
--   resume_store.py.
-- - Urls: urls.py. The regular expressions are searches over the characters.
-- - Retry, with Errors, Backoff and Loop: retry.py.
-- - Concurrency: concurrency.py.
-- - Pacer, with Laws and Bounds: pacer.py, over any arithmetic of floats.
-- - Client: `_run` and `_exec` of drive_client.py, which hold retry, concurrency and pacing
--   together, and the queries of the listings, with Queries on their quoting.
-- - Cli: cli.py from the parsed arguments to the exit code.
-- - Index: DestinationIndex of copier.py. Items carry a handle, since Python tells equal objects
--   apart by identity.
-- - Resume: resume_store.py. Json and Payload write a log, Read reads it back, Store saves it,
--   Load merges the logs of a folder, and Cleanup tidies up and writes the report of failures.
-- - Copier: copier.py. Drive is the client that it is handed, Engine its state, Book the
--   bookkeeping, Checks and Failure the tests and the handling of errors, Files `_copy_file`,
--   Folders the destination folders and shortcuts, Listing the listing of a folder and the index
--   of a destination, Resuming what a run takes from the log and its early stops, Completed the
--   folders that need no second visit, Batches the fast listing, Submit, Children and Levels the
--   walk through the source, Run a run from its checks to its end. Moves says what all of these
--   may do to the books, with one rule for each way to build an action, and has a child for each
--   of them; Run/Climb is about the test for a destination inside the source; Kept says what they
--   leave alone.
-- - Prelude: the names and lemmas that the parts share. Tests: the theorems at concrete inputs.
--
-- Methods are actions: a function of the engine's state that returns, raises, or has used up its
-- fuel, with the state that it leaves. What a call of Drive answers comes from a world that each
-- call may change, so a theorem about every world and every client covers every answer and every
-- failure. The retry loop has one unit of fuel more than the policy has attempts, which is proved
-- to be enough. A loop over the pages of a listing has no bound in the code, and takes its fuel
-- as an argument; as many units as Drive has pages are enough. The walk goes down on fuel for the
-- depth of the source tree, since the shape of that tree is Drive's; its theorems hold for every
-- fuel. The search for completed folders has one unit more than the tree has folders, which is
-- enough.
--
-- A wait of the pacer or for a place at a limiter has no bound in the code either; the pacer's
-- loops take fuel, and a look at a full limiter ends in no answer.
--
-- Parameters of the model, which are code that is not in the repository: the Drive service behind
-- the client protocol, the clock, the arithmetic of floats in the pacer, JSON, SHA-256, the
-- random numbers and the sleeping of the retry loop, and the printing of floats and sizes.
--
-- Bounds: sizes and counts are natural numbers. A release of reserved bytes stops at 0, and is
-- exact since the bytes were reserved before. Floats are exact binary fractions. `int` of a text
-- reads decimal digits only, `lower` is that of ASCII, and `repr` of a text is the text between
-- single quotes. An exception of the HTTP client carries the parts that `parse_http_error` and
-- `parse_retry_after` read from it.
--
-- Not modelled: log lines, the thread pool (a file that is submitted is copied at once, and an
-- exception of its worker is dealt with there), the building of requests in drive_client.py, the
-- parts of cli.py, auth.py and logging_utils.py that are calls of other libraries, and the
-- notebook.
pub mod Prelude
pub mod Models
pub mod Pacer
pub mod Client
pub mod Urls
pub mod Retry
pub mod Concurrency
pub mod Index
pub mod Resume
pub mod Copier
pub mod Cli
pub mod Tests
