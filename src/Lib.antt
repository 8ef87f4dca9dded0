-- ===== src/Lib.antt =====
-- AWS IoT Device Client: a model of the Jobs feature, of the secure tunnels, of the
-- configuration, and of the parts that they stand on.
--
-- The client keeps one MQTT connection and runs features over it. FeatureRegistry.antt models the
-- registry that starts, stops and resumes them (source/FeatureRegistry.cpp), LogQueue.antt the
-- queue between the features' log calls and the logger's thread (source/logging/LogQueue.cpp),
-- Util.antt the retry loop and the string functions (source/util/Retry.cpp, StringUtils.cpp).
--
-- Jobs.antt is the Jobs feature, source/jobs. Its parts, in the order of a job's life:
--   Jobs/Startup.antt         runJobs: the five subscriptions and the wait for their answers.
--   Jobs/Recovery.antt        the same subscriptions after a lost session (onConnectionResumed,
--                             resubscribeAfterSessionLoss, completeRecoverySubscription,
--                             retrySubscriptionRecovery), and their end (stop). Recovery/Machine
--                             composes the critical sections into a machine: an event is one
--                             section of one thread, with what it decides, and the lifecycle lock
--                             orders them. In Recovery/Threads a decision and its carrying out are
--                             two events, so that a stop can come in between.
--   Jobs/Execution.antt       the handlers of job messages, tryStartJob, initJob, executeJob, with
--                             the updates in the order in which they are asked for: each is
--                             published by a thread of its own.
--   Jobs/JobDocument.antt     PlainJobDocument: its fields and Validate; JobDocument/Load its
--                             LoadFromJobDocument.
--   Jobs/JobEngine.antt       JobEngine: the output of a child, exec_cmd, exec_process;
--                             JobEngine/Actions the steps of a document and getReason.
--   Jobs/LimitedStreamBuffer.antt  the last 1024 bytes of a child's output.
--   Jobs/StatusUpdates.antt   publishUpdateJobExecutionStatus and the promises of its answers
--                             (EphemeralPromise.h).
--
-- Tunneling.antt is the feature of the secure tunnels, source/tunneling:
--   Tunneling/Feature.antt    SecureTunnelingFeature: start, stop, the subscription to the tunnel
--                             notifications and its recovery; Feature/Machine composes them,
--                             Feature/Notifications is OnSubscribeToTunnelsNotifyResponse, which
--                             makes a context for each tunnel.
--   Tunneling/Context.antt    SecureTunnelingContext: how a tunnel is connected and stopped, with
--                             Context/Machine for its threads and tasks; Context/Forwarding its
--                             local connection, a TcpForward that is known by its address.
--   Tunneling/TcpForward.antt TcpForward: the local connection itself; TcpForward/Machine for its
--                             threads.
-- Config.antt is the configuration, source/config/Config.cpp:
--   Config/CommandLine.antt   ParseCliArgs, which reads the command line into flags and values.
--   Config/<Section>.antt     a section of PlainConfig with its LoadFromJson, LoadFromCliArgs,
--                             Validate and SerializeToObject: LogConfig, Jobs, Tunneling (with
--                             what SecureTunnelingFeature makes of it), DeviceDefender,
--                             FleetProvisioning, HttpProxy (with util/ProxyUtils.cpp), PubSub,
--                             SampleShadow, ConfigShadow, SecureElement, SensorPublish.
--   Config/PlainConfig.antt   the whole record: PlainConfig/State its loading, /Checking Validate,
--                             /Serializing SerializeToObject.
--   Config/Init.antt          init, which puts the configuration file, the command line, the
--                             environment, the file of a finished provisioning and the proxy's
--                             file together.
-- Shadow/ConfigShadow.antt is what the configuration shadow (source/shadow/ConfigShadow.cpp)
-- reports of the configuration, and what it changes of it. Both stand on Util/FileUtils.antt,
-- the part of source/util/FileUtils.cpp that reads the file system.
--
-- In the machines of the tunnels an event is one critical section, or one call of the SDK that
-- returns. The one thread of the client's event loop group runs the callbacks one after the other,
-- so that the machines have more interleavings than the client.
--
-- Conventions. A std::string is a list of bytes (Base/Texts). `none` is a run that does not return
-- a value: an exception that nobody catches, or an access that C++ leaves undefined, as the comment
-- of each definition says. A size_t and the generations wrap at 2 ^ 64. Logging is left
-- out. What is not in the repository is a parameter: the JSON view of the AWS CRT and its JSON object
-- with the laws of writing and reading a member, a number being stored as a double (Base/Json), the operating system (JobEngine.Os), the
-- file system with wordexp, stat and the opening of a file (FileUtils.FileSystem), std::regex, stoi,
-- stoul, stoull and the printing of a number, the clock, the random tokens, and the sockets, event
-- loops and tunnels of the AWS CRT and SDK, which answer by arguments. Paths that wordexp refuses,
-- where the code throws or answers false, are not modelled: word_exp answers every path. The files do
-- not change while the configuration is loaded; where the default output file of the sample shadow is
-- made, they are taken as they are afterwards.
--
-- Bounds. Only the retry loop has fuel, one unit for each turn of the loop and one for its end;
-- Util/Retry/Termination shows which fuel is enough. The other loops are structural recursion over
-- what they read, or over a list of events.
--
-- Not modelled: of the configuration, the texts of --help and --version, the exported default
-- settings, and the permission checks of ParseConfigFile, which only log; of the file utilities, those
-- that make files and directories; the connection manager, the requests of fleet provisioning, Device
-- Defender, the features of the samples, the messages of the shadows, the reading of the sensors, the
-- loggers, and main; and, in the Jobs feature, the events sent to the client's notifier and the joining
-- of the startup thread.
mod Base
pub mod Util
pub mod Jobs
pub mod FeatureRegistry
pub mod LogQueue
pub mod Tunneling
pub mod Config
pub mod Shadow
mod Tests
