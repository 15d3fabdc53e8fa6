-- ===== src/Tests.antt =====
-- Runs of the models on small inputs, and the theorems at inputs that meet their hypotheses.
mod SlotsTests
mod TransferTests
mod ExchangeTests
mod NetworkTests
mod OperationTests
mod RequestTests
mod ListenerTests
mod ServerTests
mod TaskTests
mod MainTests
mod PacketTests
