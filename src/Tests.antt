-- ===== src/Tests.antt =====
-- The theorems at concrete inputs, and runs of the definitions.
mod LldpTests
mod DiscoveryTests
mod MessengerTests
mod SwitchTests
mod OpenFlowTests
mod InterserverTests
mod BuilderTests
mod AnswerTests
mod EventTests
mod ClassifierTests
mod KernelTests
mod TimerTests
