-- ===== src/Lib.antt =====
-- Verification of ava-capture, a system that records takes with many cameras and processes them on
-- a farm of machines: the website's capture, archive and job views, and the job client.
--
-- The website (website-backend/ava/jobs) keeps jobs and machines in a database. A job client on
-- each machine reports to it every few seconds: what it is running, what has finished, which jobs
-- it can run. The site takes the report in, fails the jobs that are lost, settles the jobs whose
-- children are done, and reserves the next job for the machine. Users submit, restart, delete and
-- kill jobs by requests.
--
-- In a studio, capture nodes tell the site which cameras they have. A user who may write the studio
-- (location) opens a session and a shot, and records: the site asks the nodes in turn, and stores the
-- take with what each camera reports. A superuser exports or deletes takes, which makes jobs.
--
-- Farm: the tables and their store. Farm/Models has the rows of jobs/models.py, Farm/Store the
-- queries and writes, Farm/Methods the methods of the models. Base/Effects is what a view does: it
-- maps a state to a result or an exception and a state, which outlives the exception, as the site
-- commits each statement on its own. The clock, the database's text comparison, the keys that
-- Django's delete cascades to, EC2 and the settings are parameters, the fields of Env.
--
-- Parent: UpdateParentJob, onJobChanged, job_notification and cleanup_dead_jobs of jobs/views.py.
-- The mutual recursion of the first two runs on fuel, which stands for Python's call stack.
-- Parent/Depth is about how much is enough; the theorems take at least 2. Parent/Verdict says which
-- status the children of a job give it, Parent/Settling describes the effect on the stored
-- statuses, and Parent/Keeping what it keeps.
--
-- Requests: the requests about jobs (restart_job, restart_job_failed_child, delete_job, kill_job,
-- submit_test_job). Aws: jobs/aws.py, over the answers of EC2. Scheduler: the part of
-- post_client_discover that picks and reserves a job. Discover: the rest of post_client_discover,
-- in the order of the handler.
--
-- Client: job_client/job_client.py, which runs on the machines. Client holds the jobs, their results
-- and the container; Client/Steps its threads as steps and the runs of a client; Client/Exchange the
-- report and the answer, Client/Refines what an answer leaves. Output: the output log of a job; its
-- conversion to HTML, by a package, is a parameter. Nodes: the requests about machines.
--
-- JobApi: POST and PATCH of a job, by FarmJobSerializer of jobs/serializers.py. Launch: launch_job and
-- yieldToChildren of job_client/jobs/base.py, which make these requests; what else the site does
-- between two of them is a parameter. ExportTake and CopyFiles: the jobs of
-- job_client/jobs/archive.py that export a take, over the disks that they see; the loop that copies
-- a file runs on fuel, which stands for the time it is given, since it need not end; one round more
-- than the file has bytes is enough where it does. JobFiles: the uploads of a job's image and mesh.
--
-- Sequence: the frame index of the files that the capture nodes write, as
-- capture-node/raw_file_format_readers.py reads it.
--
-- Site: the tables of capture/models.py and archive/models.py beside the job farm, with the queries
-- and writes of the views, and the requests that the views send to the capture nodes.
--
-- Capture: capture/views.py. Capture has the rights and the requests about one camera
-- (Capture/Allowed is about the rights on a location), Capture/Shots the projects, sessions and
-- shots, Capture/Takes the registration of a take,
-- Capture/Recording the requests that record, Capture/Locations the overviews and settings of
-- locations, and Capture/Discover what a capture node tells of itself. The thread pool is taken to
-- make its requests in the order of the nodes. Names: the names of sessions and shots; the loops
-- for a free name run on fuel, two rounds more than there are names. ShortIds:
-- common/uuid_utils.py; the division by 36 runs on fuel, the number itself.
--
-- Archive: archive/views.py and the methods of archive/models.py. Archive has the requests about
-- one row and the uploads, Archive/Files the files of a recording, Archive/Deletion and
-- Archive/Export the deletion and the export of takes, Archive/Methods and Archive/Dependency the
-- methods of the models. What json.dumps and os.path do is given by parameters.
--
-- Base has what the parts share: tests, lists, tables of rows by key, and the effects of a view,
-- with the rules for what it keeps, and for what it leaves where it returns or raises. Tests has small
-- farms and a small site.
--
-- Not modelled: the download and the import of takes, which always fail; the accounts of the
-- website, admin pages, settings and migrations; the other serializers, and the lists and details
-- that the REST framework makes with them; the jobs that call ffmpeg and S3; the processing of pixels by numpy and OpenCV; the capture nodes in C++
-- and the frontend in TypeScript.
--
-- A foreign key is the key of a row. Rows are kept in the order in which they were first stored,
-- which is the order that the queries without order_by are read in. Times are whole microseconds.
-- Texts that are only shown or logged are left out.
pub mod Base
pub mod Farm
pub mod Parent
pub mod Aws
pub mod Requests
pub mod JobApi
pub mod Launch
pub mod CopyFiles
pub mod ExportTake
pub mod JobFiles
pub mod Scheduler
pub mod Discover
pub mod Client
pub mod Output
pub mod Nodes
pub mod Sequence
pub mod Names
pub mod Capture
pub mod Archive
pub mod Site
pub mod ShortIds
mod Tests
