-- ===== src/User.antt =====
-- Users: groups of users, the rules that groups grant, accounts with their sessions and
-- subscriptions, and the list of all users. src/user/*.cpp and *.hpp.
pub mod Group
pub mod Rule
pub mod Policy
pub mod Session
pub mod Subscription
pub mod Account
pub mod UserList
