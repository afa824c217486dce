-- ===== src/Chat.antt =====
-- demo-chat: the wire protocol, the history file and the rooms.
pub mod Protocol
pub mod Rooms
pub mod History
