-- ===== src/Examples.antt =====
-- Tests at concrete inputs, many of them the unit tests of the source, and the theorems applied.
mod UtilTests
mod BitSetTests
mod NetTests
mod TcpTests
mod AllocatorTests
mod XhciTests
mod WaitersTests
mod KeyboardTests
mod ManagerTests
mod ArgsTests
mod PagingTests
mod SyncTests
mod GraphicsTests
mod LoaderTests
mod ProcessTests
mod DnsTests
