-- ===== src/Lib.antt =====
-- A verification of kdmp, the controller that backs up and restores Kubernetes volumes. A data export
-- is a custom resource that the controller moves through a state machine, one step for each
-- reconciliation: a snapshot of the source claim is taken and a temporary claim restored from it, a
-- job that copies the data is started and followed, and what was created is removed. A restore may
-- first try a local snapshot.
--
-- Files, and what they are about:
--   Base          texts as lists of bytes, results, integers, the functions of Go's package strings
--   Api           pkg/apis/kdmp/v1alpha1: DataExport, its stages and statuses, VolumeBackup
--   Services      what lies outside the repository, as records of calls: the client for DataExport
--                 objects with its laws, the retry helpers with theirs, and all other services
--   Drivers       pkg/drivers/drivers.go, options.go and driversinstance: the interface of a transfer
--                 driver, the job options, the table of drivers
--     KopiaBackup, KopiaRestore, KopiaDelete, KopiaMaintenance   the four drivers of pkg/drivers/kopia*
--     KopiaJob      the pod, the certificate and the errors that they share
--     ResticBackup, ResticRestore, Rsync   the drivers of pkg/drivers/resticbackup, resticrestore and
--                   rsync; ResticJob has what the first two share
--   Jobs          pkg/drivers/utils: job ids, what the conditions, the pods and the node of a job say, the
--                 settings of the executors, their service accounts, and labels; Batch has the objects and the
--                 services that these and the drivers work with
--   JobRateLimit  pkg/jobratelimit: the count of the jobs of a driver, and the limit on it
--   Kopia         pkg/kopia: the commands (command.go); Build has the functions that make them
--     Output        what is read from kopia's output
--     Executors     what an executor makes of the end of its process, and its Status
--     Runs          the executors as such, their Run, and the two ways to wait for them
--   Executor      pkg/executor: the types of common.go, and what the executors call
--     Arguments     the flags of the backup command, in kopia.go and kopiabackup.go
--     Outcomes      how a run of an executor ends
--     Credentials, VolumeBackups   the functions of common.go
--     Repositories  the repository's steps that kopiabackup.go, kopiadelete.go, restore.go and
--                   maintenance.go of pkg/executor/kopia share
--     Backup, Restore, Delete, Maintenance   the four commands of pkg/executor/kopia
--   Controller    pkg/controllers/dataexport/reconcile.go and dataexport.go
--     Flow          how a stage handler ends: a status update, a plain return, or a nil dereference
--     Update        updateStatus
--     Names, Refs, Secrets, Checks, Cleanup   the helpers of reconcile.go
--     Snapshot, LocalRestore, Transfer        the stage handlers
--     Sync          Controller.sync, composed of the handlers
--     Reconcile     Controller.Reconcile
--     Phases        the state machine apart from the code, and the theorems that relate the two
--   Tests         concrete services, and each theorem at one input
--
-- A Go function that calls services is a function of the state behind them: the objects behind the
-- DataExport client, and the world of everything else. A call may change that state whether it
-- fails or not. Names follow the source in lower case: stageSnapshotRestore is stage_snapshot_restore.
-- An error keeps its text and whether it is a not-found or an already-exists error, or one of the
-- three sentinels that the code compares. A pointer that the code dereferences without a test is an
-- Option, and nil is the verdict crash.
--
-- task.DoRetryWithTimeout is a parameter. Its law is that the result comes about by running the task
-- some number of times, with the deadline before any of the runs. A theorem therefore holds for every
-- number of runs, and no fuel occurs in the controller's model. wait.ExponentialBackoff is one too, with
-- the law that an output comes from the last run of its condition. The law of the client is that an
-- update of the stored object that reports success is stored, and one that reports an error is stored
-- or not; no other writer changes the object between two calls of one sync.
--
-- The controller's drivers start jobs, whose pods run the executors, and the two meet in the volume
-- backup, in the mounted secret and in the exit of the job. An executor starts a process and asks
-- after it. `look` stands for the time up to such a question: it may change the world, and says
-- whether the process has ended by then, with what output. The goroutine that waits for the process
-- has then done all of its writes or none. An endless loop takes the number of its looks as an
-- argument and ends as `unfinished` where they are used up; a theorem about a loop that returns holds
-- for every number of looks, and Executor.Backup.Ends says how many are enough.
--
-- The words of a pod's command line are read by pflag, a parameter too: a registered text flag takes the
-- word after it.
--
-- Not modelled: logging; the start-up of the commands, and their flags but for those of kopia's backup;
-- the restic commands and executors, and ParseBackupLocation, which only these use; generated clients
-- and vendored code; the lock around the table of drivers; a nil map of annotations apart from an empty
-- one, so that the panic at writing into one is left out; writes of a goroutine that are seen one by
-- one; white space and path elements beyond ASCII and beyond what the program writes; messages printed
-- with verbs other than those that insert a text.
pub mod Base
pub mod Api
pub mod Services
pub mod Drivers
pub mod Jobs
pub mod JobRateLimit
pub mod Kopia
pub mod Executor
pub mod Controller
pub mod Tests
