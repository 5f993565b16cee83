-- ===== src/Examples.antt =====
-- Theorems of each part at concrete inputs.
mod States
mod Downloads
mod Requests
mod Fetches
mod Playlists
mod Clients
mod Models
mod Tools
