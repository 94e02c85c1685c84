-- ===== src/Tests.antt =====
-- Runs of the models on concrete inputs.
mod Orders
mod Gateways
mod Policies
mod Audits
mod Stages
mod Archives
mod Updates
mod Peers
mod Installs
