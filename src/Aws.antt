-- ===== src/Aws.antt =====
-- internal/adapters/aws: the clients of the AWS SDK. The calls of the SDK are parameters (`Sdk`), and what
-- the clients cut out of ARNs, ask for, check and convert is modelled.
pub mod Sdk
pub mod Names
pub mod Services
pub mod Tasks
pub mod Elb
pub mod CloudWatch
pub mod Health
pub mod Ports
