-- ===== src/Post.antt =====
-- message/post_office.hpp, message/post_office.cpp and message/master_post.cpp: the post offices,
-- which route messages between mailboxes and the outside world.
pub mod Office
pub mod Send
pub mod Effect
pub mod Fuel
pub mod Steps
pub mod Routes
pub mod Replies
pub mod Misrouted
pub mod Rolls
pub mod Master
pub mod Exchange
pub mod Delivery
mod Tests
