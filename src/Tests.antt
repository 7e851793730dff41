-- ===== src/Tests.antt =====
-- Runs on concrete inputs: fixed messages and numbers, and the theorems at some of them.
mod Data
mod Book
mod Trading
mod Accounts
mod Whole
mod Tasks
mod Inputs
mod Mirror
mod Agreement
mod Booking
mod Web
mod Solvency
mod Prediction
