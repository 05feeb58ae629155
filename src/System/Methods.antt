-- ===== src/System/Methods.antt =====
-- What goes through sequences and holds of the parts that touch the bot, holds of every method: the
-- proof for each method of src/DiscordBotClient.cpp, once for all such properties.
pub mod Talking
pub mod Voicing
pub mod Connecting
pub mod Commands
pub mod Callbacks
pub mod Playing
pub mod Events
