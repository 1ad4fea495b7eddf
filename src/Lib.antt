-- ===== src/Lib.antt =====
-- UN_Orion: a verification library for the C code of the kernel.
--
-- Components and where they are modelled
--   Common   what all parts share: words with wrap-around, byte strings, C's int, runs whose reads
--            may fault, tables over all bytes
--   Block    kernel/blockdev.c, include/blockdev.h: `blockdev_validate`, `blockdev_read` and
--            `blockdev_write` are `Block.validate`, `Block.read` and `Block.write`
--   Fat16    kernel/fat16.c, include/fat16.h: `fat16_mount` is `mount` (loads in `read_bpb`, refusals
--            in `bpb_refused`, the result in `mounted`); Fat16/Root: `fat16_read_root_sector` and
--            `fat16_find_root`
--   Dhcp     kernel/dhcp.c, include/dhcp.h: Dhcp/Reply is `dhcp_parse_reply`, Dhcp/Packet is
--            `dhcp_base`, `dhcp_finish`, `dhcp_build_discover` and `dhcp_build_request`, Dhcp/Client is
--            `dhcp_rx`, `dhcp_wait`, `dhcp_acquire` and what they call
--   Pmm      kernel/pmm.c, include/pmm.h, include/bootinfo.h: `pmm_init`, `pmm_alloc_page`,
--            `pmm_free_page` and `pmm_free_pages` without the prefix; Pmm/Safety has the client
--   Boot     boot/main.c: Boot/Install is `find_single_install_target` and `copy_install_media`,
--            Boot/Offer `read_key_with_timeout` and `offer_optical_install`, Boot/Load
--            `valid_kernel_elf` and `load_kernel`, Boot/Exit `exit_boot_services`
--   Net      kernel/net.c, include/net.h: Net/State has the static variables and the frames, Net/Stack
--            sending and the handlers of ARP, ICMP and TCP, Net/Stack/Receive `handle_udp`, `handle_ip`,
--            `handle_frame` and `net_poll`, Net/Client the functions that the kernel calls, with
--            `parse_ipv4` and the query of `dns_lookup` in Net/Client/Query; Net/Url is `parse_url` and
--            `resolve_redirect`, Net/Chunked `decode_chunked`, Net/Http `net_http_get`, its plain
--            exchange in Net/Http/Exchange; Net/Session and Net/Delivery follow a TCP connection
--   Graphics kernel/graphics.c, include/graphics.h, by the names of the functions there
--   Input    kernel/interrupts.c: the timer and the rings between interrupt handlers and readers
--   Tls      kernel/tls.c: `rtc_snapshot` and `tls_time`
--   Vela     kernel/vela.c: Vela/History is `hist`, `vela_back` and `vela_forward`, Vela/Zipper what they
--            are to do
--   Pci      kernel/pci.c, include/pci.h, by the names of the functions there, over `outl` and `inl`
--   Tests    concrete inputs, with the theorems applied at them
--
-- FAT16 reads through the block device interface; the driver behind it is a parameter, and the
-- theorems that need a working one say so by `Serves`.
--
-- The DHCP exchange. The static variables are the record `Client`, and `sent` is what went to
-- `netdev_tx`. Clock and network are the environment: a `Setting` has the clock readings and the frames
-- that `netdev_poll` delivers in each round of the two waits. An exchange whose rounds run out is
-- `none`; the theorems say when that cannot be.
--
-- The network stack. The driver and the clock are the record `Device` over a state of their own. Sending
-- to an unresolved hop polls, and polling may send: the senders take `net_poll` as an argument, and
-- `net_poll` with its fuel passes itself with less. The TLS exchange is an argument of `net_http_get`.
--
-- The boot loader's firmware is a parameter: the records `BlockIo`, `Firmware`, `Loader` and `Services`
-- hold the services that each part calls, and the theorems name what they rely on.
--
-- Conventions. A null pointer is `none`. A pointer with its length is the list of the bytes behind it;
-- in Dhcp/Reply and in the handlers of Net/Stack each read may fault, and so does `send_tcp` with more
-- data than its array has room for; elsewhere an index is bounded by
-- a constant or by the code. A function that writes through pointers returns the new contents; a
-- driver's state is passed along.
-- `uint8_t` to `uint64_t` arithmetic wraps by `u8` to `u64` where the code could wrap. Little- and
-- big-endian loads are sums, since the bits of their bytes do not overlap. The first content of a local
-- array is an argument.
--
-- Fuel. The option loop of `dhcp_parse_reply` takes the packet's length plus one, since each round takes
-- a byte at least. The sum of `dhcp_checksum16` is folded three times, as often as 32 bits can need. The
-- loops over the memory map take its size plus one, and the scan of `pmm_alloc_page` takes its fuel as an
-- argument: `left` says how much is enough. The search for a chunk in `copy_install_media` takes 2 ^ 20,
-- since a chunk above 1 MiB ends it, and the copy the image's length plus one. `exit_boot_services` takes its fuel as an argument, since only the
-- firmware bounds its rounds. The loops of the network stack that wait for the clock or for frames take
-- their fuel as an argument, since only the device bounds them; `decode_chunked`, `header_value_ci` and
-- `net_tcp_write` take the length plus one, the names of a query the host's length, since each round
-- takes a byte at least; the other loops over text are recursions on the text. All other loops are counted down.
--
-- Not modelled: assembly, device registers, the desktop, console output, `efi_main`, the build scripts,
-- the fonts, the browser beyond its history, its document engine, images, and BearSSL behind TLS.
pub mod Common
pub mod Block
pub mod Fat16
pub mod Dhcp
pub mod Pmm
pub mod Boot
pub mod Net
pub mod Graphics
pub mod Input
pub mod Tls
pub mod Vela
pub mod Pci
pub mod Tests
