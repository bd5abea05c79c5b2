-- ===== src/Lib.antt =====
-- The control plane of the legacy messenger scales ECS services by the number of chat sessions that
-- their tasks report. This library models the decisions and state machines of that scaling.
--
-- The program's parts, and the file that models each:
--
-- - internal/application/usecase/session_auto_scaling_usecase.go, EvaluateAndScale, runs on a timer for
--   each service. It observes ECS and the session reports, computes a demand, asks the policy, and
--   scales out at once or registers a scale-in job. Demand.antt has its pure functions
--   (getSeparatedRunningTask, calculateTotalSessionCount, calculateRequiredTaskCount,
--   evaluateScalingDemand), AutoScaling.antt the method itself, step by step.
-- - internal/application/usecase/scaling_policy.go, ScalingPolicy: Policy.antt. Maps with a zero value
--   are functions; the mutex makes a method one step, so Evaluate and RecordExecution are functions of
--   the state.
-- - internal/application/usecase/scale_in_coordinator.go, ScaleInCoordinator, with MarkFailed and
--   Complete of scale_in_usecase.go: Coordinator.antt. The table of jobs is an association list.
-- - internal/application/usecase/scale_in_usecase.go, Process, runs on a second timer and takes each
--   active job one step further: ScaleIn.antt.
-- - internal/application/usecase/service_evaluation_usecase.go, Evaluate, with
--   scaling_evaluation_helpers.go, recommends a count by connection pressure: Evaluation.antt.
-- - internal/adapters/scheduler, the two timers: Scheduler.antt. A run is the sequence in which they fire.
-- - internal/adapters/redis/redis_client.go, the reports of the tasks, and
--   internal/application/usecase/task_session_report_usecase.go, through which they come in: Store.antt.
--   The Redis server and the JSON codec are parameters; Store/Server.antt says what is relied on of them.
-- - internal/adapters/fake/fake_ecs_client.go, the ECS client in memory: FakeEcs.antt, its state in
--   FakeEcs/State.antt. Names of tasks, the notifier and the clock are parameters; a timer that goes off is a step.
-- - internal/application/usecase/service_scale_usecase.go and service_control_usecase.go, the requests of
--   an operator: ServiceControl.antt. target_health_usecase.go: TargetHealth.antt.
-- - internal/domain: Domain.antt. internal/ports, as the scaling use cases call them: System.antt.
-- - internal/adapters/aws, ecs_client.go, elb_client.go and cloud_watch_client.go: Aws.antt and its
--   children. Aws/Sdk.antt has the fields and the calls of the SDK, which are parameters; Aws/Names.antt what
--   is cut out of an ARN; Aws/Services, Aws/Tasks, Aws/Elb and Aws/CloudWatch the methods; Aws/Ports.antt
--   fills the interfaces of internal/ports with them.
-- - internal/adapters/aws/task_endpoint_resolver.go and ec2_client.go, the address at which the agent of a
--   task is reached: Endpoint.antt.
-- - internal/adapters/taskdrain and internal/adapters/sessionprovider, the requests to the agents:
--   Agents.antt. A request is a value, and net/http is a parameter.
-- - internal/bootstrap/clients.go, NewClients: Production.antt outside mock mode, where the scaling use
--   cases run over the clients of AWS, Redis and the agents; Endpoint/Memory.antt in mock mode.
-- - internal/application/service, connection_pressure_calculator.go and connection_pressure_helpers.go:
--   Pressure.antt. internal/application/usecase/connection_pressure_usecase.go: Pressure/Advice.antt.
-- - internal/application/usecase/service_observation_usecase.go and task_observation_usecase.go:
--   Observation.antt.
-- - internal/adapters/http and internal/bootstrap/router.go, the handlers and the routes: Http.antt. What gin
--   does is a parameter.
-- - configs/config.go and configs/service_registry.go: Config.antt, with strconv.Atoi in
--   Config/Numbers.antt. The environment, the file and the YAML parser are parameters.
--
-- How the parts meet. The two use cases share the policy and the coordinator; System.antt puts both in
-- one state, with a world behind the ports. A port is a function of the world that answers a value, an
-- error or a panic and leaves a world, so it may answer differently at each call. Exec.antt is the
-- monad of methods that return (T, error): what was written before an error stays written, and a nil
-- dereference, or a loop that never ends, is an outcome of its own. Base.antt and its children hold the
-- shared tests, lists, maps and results. Floats.antt is float64 as a parameter, with the IEEE facts that the code relies on;
-- Floats/Exact.antt shows by exact fractions that they can hold.
--
-- Numbers and time. Counts are natural numbers; where Go's difference could be negative, the test is
-- written as a sum. A time is a number of nanoseconds since the zero time, and IsZero compares with 0.
-- Every loop but two runs over a list or counts a number down. GetRunningTaskIDs reads pages of ListTasks
-- until one names no next page; the model counts them down from the parameter `pages`, and a run that needs
-- more is one that never returns, as a run of the code is where ECS never ends its pages. Its loop over
-- slices of 100 counts down from the number of ARNs, which is enough, since no slice is empty. An int32 of
-- the client in memory is a number below 2 ^ 31, and calls with greater counts, where Go wraps around, are not
-- modelled; the AWS client and the timeout of the configuration have the wrap-around written out. Sums of Go's
-- ints are taken to stay below 2 ^ 63.
-- Go's order of iteration over a map is open; the theorems hold for the table in any order.
--
-- The child modules prove: Policy/Approval when a request is approved and with which count,
-- Policy/History what every call and every history of calls keeps, Policy/Persistence and
-- Policy/Cooldown what an approval needs of the past; Coordinator/Entries and Coordinator/Graph how a
-- job moves, Coordinator/Invariant what holds of the table, Coordinator/Active which jobs are in
-- progress; Demand/Partition, Demand/Totals and Demand/Required the session arithmetic;
-- AutoScaling/Control which steps change policy and jobs, AutoScaling/Coverage when a scale-in may be
-- registered, AutoScaling/Outcome what an answer means; ScaleIn/Target and ScaleIn/Drain which task is
-- drained, ScaleIn/Steps what each step of a job needs; Evaluation/Recommendation which count is
-- recommended by connection pressure. Exec/Alive and ScaleIn/Alive follow a nil dereference through
-- the methods. Scheduler/Effects, Scheduler/Scaling and Scheduler/Jobs say what a step asks of the
-- policy and of the coordinator, Scheduler/Ticks and Scheduler/Guarantees what a run comes to,
-- Scheduler/Isolation that jobs do not meet, Scheduler/Completion what becomes of a job that is not
-- completed in time. Store/Loops, Store/Reports and Store/Expiry are about the Redis client,
-- Store/Drained about a drain over it; FakeEcs/Counts, FakeEcs/Timers, FakeEcs/Converges and
-- FakeEcs/Drains about the client in memory; ServiceControl/Requests and TargetHealth/Status about the
-- requests of an operator; Observation/Listed about what is shown. Aws/Tasks/Running and
-- Aws/Tasks/Described are about the tasks that ECS describes, Aws/Names/Ids about the two ways to cut
-- an id, Aws/Elb/Counts and Aws/Health about the targets, Aws/CloudWatch/Sorting and
-- Aws/CloudWatch/Latest about the datapoints. Endpoint/Resolved says what an address stands for,
-- Agents/Delivered what a request has done, Pressure/Measured what a pressure was measured from,
-- Config/Loaded what a configuration holds, Http/Answers what an answer says of the request.
-- Exec/Inversion splits a method that returns into its parts; with Exec/Alive, Production/Adapters,
-- Production/Sessions and Production/Returns take the scale-in over the clients of production. Tests
-- and its children run the theorems on a service of three tasks, on a Redis server in memory, on runs
-- of the timers, and on clients of AWS and agents that answer for two tasks (Tests/Cloud).
--
-- Not modelled: the SDK of AWS, the Redis server, net/http, JSON, YAML and the environment, which are
-- parameters; the constructors of the AWS clients and of the connections to Redis and ssh, which only
-- load and open; how gin finds a route, reads a body and writes an answer; the intervals and the
-- cancellation of the timers; logging and the result log; the rest of the wiring; the mock of ECS auto
-- scaling, whose answers are constants. Contexts are taken to be live. Log lines and most texts of
-- messages are left out: a message is the constructor of its text with the values it prints.
pub mod Aws
pub mod Endpoint
pub mod Agents
pub mod Production
pub mod Http
pub mod Observation
pub mod Config
pub mod Base
pub mod Floats
pub mod Domain
pub mod Policy
pub mod Coordinator
pub mod Demand
pub mod Exec
pub mod System
pub mod AutoScaling
pub mod ScaleIn
pub mod Evaluation
pub mod Pressure
pub mod Scheduler
pub mod Store
pub mod FakeEcs
pub mod ServiceControl
pub mod TargetHealth
pub mod Tests
