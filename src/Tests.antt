-- ===== src/Tests.antt =====
-- Runs of the model and instances of its theorems, on small digests in place of SHA-256.
mod Digests
mod Txs
mod Blocks
mod Chains
mod Messages
mod Nodes
mod Overdraft
mod Keys
mod Wallets
mod Systems
mod Menus
mod Peers
mod Exchange
