-- ===== src/Tests.antt =====
-- Runs of the model on small inputs. The children hold the data and the instances of the theorems.
mod Threads
pub mod Wakeups
pub mod Frames
pub mod Toy
mod Wire
mod Tables
pub mod Flows
mod Pairs
mod Fragments
use ne.Base.{refl, ◌≡◌, true, false}
use ne.L2.{need_split, udp, icmp}

-- A UDP frame of 8968 bytes is the longest that is sent whole.
split_8968 : need_split udp 8968 ≡ false
unfolding need_split
split_8968 = refl

split_8969 : need_split udp 8969 ≡ true
unfolding need_split
split_8969 = refl
