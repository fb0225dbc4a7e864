-- ===== src/Actions.antt =====
-- src/actions: the functions that the commands run. One child for each group of them.
pub mod Session
pub mod Files
pub mod Delete
pub mod Listing
pub mod Transfer
pub mod Login
pub mod Frame
pub mod Replies
