-- ===== src/Lib.antt =====
-- iCEFARM: a farm of FPGA devices. A control server keeps the reservations, workers hold the
-- devices, and clients send circuits in batches and collect results.
--
-- Prelude holds the shared names and the lemmas on lists, sets and tests; Dict is Python's
-- dict as a list of entries in the order of insertion.
--
-- Utils: MappedQueues and Queue of src/icefarm/utils/utils.py (Utils/MappedQueues,
-- Utils/Queue), the typecheck and json_to_args of that file with inject_and_return_json of
-- src/icefarm/utils/web.py (Utils/Web), the sessions of src/icefarm/utils/EventSender.py
-- (Utils/Session) with the socket callbacks of src/icefarm/worker/app.py and
-- src/icefarm/control/app.py (Utils/Session/Sockets), config_else_env of utils.py with
-- src/icefarm/worker/Config.py (Utils/Config), src/icefarm/utils/RemoteLogger.py
-- (Utils/RemoteLogger), and the outcomes of statements and the listeners of
-- src/icefarm/utils/Database.py (Utils/Database). Utils/Loops is what Python's closures see of
-- a loop's variable.
--
-- Client: Evaluation, EvaluationBundle and the batch factories of
-- src/icefarm/client/lib/BatchClient.py (Client/Evaluation, Client/Bundle, Client/Factory);
-- the connections of src/icefarm/client/lib/BaseAPI.py, BaseClient.py and EventServer.py
-- (Client/Connections); the dispatch of events in AbstractEventHandler.py (Client/Handlers),
-- the callback `event` of EventServer.py and ResultHandler and _evaluateBatch of
-- BatchClient.py (Client/Events), the waits of BaseClient.py and of utils.py beside it
-- (Client/Waiting), `reserve` and `reboot` of BaseClient.py (Client/Reserving), and
-- evaluateBitstreams of pulsecount.py and varmax.py (Client/Drivers). A driver makes the
-- evaluations of a bundle, a factory draws batches from a bundle, and the client sends each
-- through requestBatchWorker to the workers of its devices.
--
-- Worker: the device and its states in src/icefarm/worker/device/Device.py and
-- src/icefarm/worker/device/state (Worker/Device), the upload thread and the serial reader of
-- state/core/UploadState.py (Worker/Upload, Worker/Reader), and
-- src/icefarm/worker/device/DeviceManager.py with get_serial of src/icefarm/utils/dev.py
-- (Worker/Manager), the other functions of dev.py on device files and firmware
-- (Worker/DeviceFiles), the search for the serial port (Worker/Ports), the callback `handle`
-- of src/icefarm/worker/app.py with EventMethod, register and handleRequest of
-- AbstractState.py (Worker/Requests), its graceful shutdown with WorkerDatabase.py
-- (Worker/Shutdown), src/icefarm/worker/device/DeviceEventSender.py (Worker/Sender), and the
-- registry, the parsers and calculate_variance of state/reservable (Worker/Reservables,
-- Worker/Results). The manager routes device files and commands to devices; a reserved device
-- ends in UploadState, whose results go back through a Session.
--
-- Control: src/icefarm/control/Control.py and Heartbeat.py (Control/Commands,
-- Control/Notifications), the events of ControlEventSender.py and the rounds of Heartbeat that
-- send them (Control/Rounds), with the rows of src/icefarm/utils/Database.py and
-- ControlDatabase.py (Control/Rows, Control/Cells), the methods of ControlDatabase.py over the
-- tables (Control/Queries), `end` and `endAll` of Control.py down to the tables (Control/Served),
-- the page of webapp.py (Control/Webapp), and the endpoints of app.py that end, extend and read
-- reservations, with the client's calls of them over a network that may lose the request or the
-- answer (Control/Endpoints).
--
-- Schema is the database of src/icefarm/control/flyway/migrations: the tables, keys and cascades
-- of V1__Tables.sql with the triggers of V1.4__Triggers.sql (Schema), the procedures of
-- V1.1__WorkerProc.sql with V1.5__UpsertWorker.sql (Schema/Workers), of V1.2__DeviceProc.sql
-- (Schema/Devices) and of V1.3__ReservationProc.sql (Schema/Reservations, Schema/Endings).
-- Control/Queries and Worker/Records (WorkerDatabase.py) call it; the rows of the view
-- device_reservations are in Control/Cells. Schema/Commands lists what the
-- servers ask of it; a transaction that raises leaves the database as it was, and the two halves of
-- a reservation are commands of their own as well, so that two reservations can find the same
-- device before either writes. A timestamp is a number of microseconds; the order in which rows are
-- found, where a limit depends on it, and whether the database is reached are arguments.
--
-- State is passed explicitly. A method that runs under a lock is one step; what a
-- watchdog reports after its lock, and the upload thread that a reboot waits for, are steps of their
-- own; a schedule of threads is a list of steps. Fuel stands in for three kinds of loop: drawing all batches of a
-- bundle, where more rounds than there are evaluations are enough, and the serial reader,
-- where more rounds than there is text are enough; both are proved; and the search through a
-- handler's classes, whose bases are an argument, so that what is stated of it is stated for
-- all fuel. A wait is given the list of what happens while it sleeps. Numbers are Python's
-- unbounded integers, so no width is written out.
--
-- Not modelled: hardware, HTTP, sockets, the connection to PostgreSQL and its clock, whose outcomes
-- are arguments of the definitions; the endpoints of app.py that reserve, command workers, log or
-- clear, which only pass on their arguments; and templates, command line drivers, firmware and
-- examples.
pub mod Prelude
pub mod Dict
pub mod Utils
pub mod Client
pub mod Worker
pub mod Schema
pub mod Control
mod Examples
