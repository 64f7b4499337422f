-- ===== src/Mail.antt =====
-- util/queue.hpp, util/mailbox.hpp and message/mailbox.cpp: the queues between threads, and the
-- mailboxes made of two of them.
pub mod Queue
pub mod Fifo
pub mod Mailbox
pub mod Balance
mod Tests
