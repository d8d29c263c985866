-- ===== src/Lib.antt =====
-- etmem moves rarely used memory of chosen processes to slower storage. Its parts, and the files here
-- that model them:
--
-- * The daemon etmemd (etmem/src/etmemd_src) keeps a registry of projects; a project has engines, and an
--   engine has tasks. A command reads a configuration file, and adds, removes, starts or stops one.
--   - Common: etmemd_common.c, checks on texts and files (check_str_valid, file_permission_check).
--   - Config: etmemd_file.c, parse_file_config, which fills a structure from a group of a file. The file
--     is glib's GKeyFile, given by what it answers.
--   - Task, Engine: etmemd_task.c, etmemd_engine.c and etmemd_thirdparty.c, how a task and an engine are
--     made from their groups. The file system and the dynamic linker are a parameter.
--   - Task/Pids: the update of a task's list of process ids, as the list at and behind the cursor that
--     the C code moves, with the nodes that are made and freed on the way. pgrep is a parameter.
--   - Project: etmemd_project.c. Project has the state (g_projects as a list, newest first),
--     Project/Params the fill functions, Project/Tasks the commands on tasks and engines,
--     Project/Control those on projects. Each command is a function with the C function's name from an
--     environment, its arguments and the daemon to an opt_result and the new daemon. A task here has
--     what the configuration fills; what it has at run time is in Task/Pids, Slide/Lifecycle and Pool.
--     The environment
--     says which allocations succeed and what a callback of an engine returns; each call of a callback
--     is recorded in the daemon's trace. A structure that the code changes in place is written back to
--     the list where the code found it.
--   - Scan: etmemd_scan.c. Scan has the page sizes and the decoding of bytes, Scan/Refs the list of used
--     pages, Scan/Bytes the reading of an answer of the kernel, Scan/Walks the walk over the areas of a
--     process and the rounds. A pointer to a next field that moves along the list is a cursor: the nodes
--     behind it and those from it on. double with libm is a parameter (Floats), and so is what the kernel
--     answers. Scan/Exported has the call for programs outside of etmemd. Scan/Touched, Scan/Recorded,
--     Scan/Answer and Scan/Process have the reference without a cursor, and the blocks that an answer
--     is made of.
--   - Slide: etmemd_slide.c and the sorting in etmemd_scan.c. Slide has the sorting and the grades,
--     Slide/Checks the checks before a run and the task parameters, Slide/Executor the run on one
--     process, which joins the checks, the scan's pages, the grades, Migrate and the cleaning, and
--     Slide/Lifecycle the start and the stop of a task.
--   - Migrate: etmemd_migrate.c, the texts written to the swap file, and in Migrate/Wmark the reclaiming
--     of the swap cache. The values under /proc and the results of writes and requests are parameters.
--   - Pool: etmemd_threadpool.c and etmemd_pool_adapter.c, the queue of workers with the steps of the
--     threads and of the timer in any order (Step, Reach), and push_ctrl_workflow in Pool/Pushing.
-- * The memory router (memRouter) receives the pages of a process in messages and decides which of them
--   the process should swap out.
--   - Router/Collect: memdcd_process.c, which collects the messages of a process. A read behind the
--     array of a message or a write behind the allocated block is recorded as `fault` in the state.
--   - Router/Threshold: memdcd_policy_threshold.c, which sorts the pages and chooses the cold ones in
--     place in an array. qsort, move_pages and malloc are a parameter.
--   - Router/Send: memdcd_migrate.c, which sends the chosen pages to the process in messages.
--   - Router/Worker: memdcd_migrate of memdcd_process.c, which runs the policy and the sender.
--   - Memdcd: memdcd_do_migrate of etmemd_memdcd.c, the engine in etmemd that cuts pages into these
--     messages.
--
-- Bounds: the loops that remove the first element until a list is empty run for as many rounds as the
-- list has elements, which empties it (Project/Calls). The sending loop runs for as many rounds as there
-- are pages, since a round sends at least one (Router/Send). Sums of uint64_t and conversions to int
-- wrap around as in C. Where C leaves the behaviour undefined, a definition answers none (the overflow
-- of the int in memdcd_do_migrate, a NULL params and a failed pthread_create in Slide/Lifecycle). A list that C unlinks by address is unlinked at the first node of that name,
-- which is the node that each caller holds. A name that calloc left NULL is the empty text.
-- The loop of etmemd_migrate_mem, which tries again while memory is short, runs on fuel; one round for
-- each page and one for each failure are enough (Migrate/Batches). The loop of get_page_shift has as much
-- fuel as the page size, which its halving cannot use up (Scan/Sizes).
--
-- Not modelled: the sockets, the log and the client's command line, which are calls of the system; the
-- parsing of maps and smaps lines, the policies of the cslide and damon engines and userswap, of which
-- only the engines' tables of operations are here; the locks of the memory router's threads; the
-- cancelling of a pool and the timer.
pub mod Base
pub mod Common
pub mod Config
pub mod Task
pub mod Engine
pub mod Project
pub mod Scan
pub mod Migrate
pub mod Slide
pub mod Pool
pub mod Router
pub mod Memdcd
