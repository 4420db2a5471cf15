-- ===== src/Lib.antt =====
-- Verification of the Lightnet firmware's panel network.
--
-- A controller and up to 100 light panels form a tree. Each panel has a few edges; behind an edge is
-- a serial link to a neighbour. The controller is attached to one panel by the trunk. The parts:
--
-- Protocol (lib/Lightnet/Core/Common, lib/Lightnet/Utils/Crc.cpp): the packets. `Crc` is crc16,
--   `Meta` is setPacketMeta, makeMeta, validatePacket, packetSizeForType and the tables beside them,
--   `Types` the packet types and header, `Discovery`, `Animation` and `Panel` the packed structs:
--   `<name>_bytes` is a struct as it lies in memory, little-endian, and `<name>_of` the cast of a
--   received frame. `Validation` relates the two sides. `Palette` is samplePalette.
-- Framing (lib/Lightnet/Core/Relay, lib/Lightnet/Panel/ArqEdgeLink): bytes to frames. PacketFramer
--   finds frames in a stream; TrunkFrameReceiver (controller) and EdgeFrameReceiver (panel) add
--   timeouts and the claim of one edge; LinkArq has the acknowledgment matcher, the duplicate window
--   and the retransmitting sender.
-- Relay (lib/Lightnet/Core/Relay): frames to a network. PanelDiscovery is a panel's edge table,
--   PanelRouter forwards frames by it, PanelDiscoveryDriver probes the edges when the controller
--   says so, PanelFrameDispatcher feeds a frame to router and driver. On the controller,
--   DiscoveryCoordinator runs a depth-first walk and records the topology in DiscoveryTreeBuilder.
--
-- Controller (lib/Lightnet/Core/Controller): AnimationScheduler, by which the scene engine plays
--   animations and sets appearances. PacketSink has the calls that it makes. PanelGraph is the
--   adjacency of the discovered tree, TopologyIndex its view from a root (bfsFromRoot,
--   computeCanonicalOrder, fillSubtree, distancesFrom, and the bits of PanelSet), and PanelSelector
--   the byte programs that select panels: selEvalLeaf, resolveSelector, emitPanelIndices.
--   PanelSelector/Meaning has selectors as expressions, their programs and what they select.
-- Panel (lib/Lightnet/Core/Panel, lib/Lightnet/Panel): what a panel shows. ColorCompose blends and
--   modifies colours, foldLayers included. PlayerState has the slots of AnimationPlayer, Effects
--   its frame evaluation (computeSlotOutput and the tick functions), AnimationPlayer the rest of it.
--   RgbController is RGBController with the gamma table. Packets has the casts of a frame to the
--   packets of LightnetPanel::handlePacket, and LightnetPanel what it does with a completed frame
--   (pollBytes from onByte's result on, sendLinkAck, handlePacket and its handlers) and the part of
--   tick that is about the player and the LED. RelayBootloader is the program of
--   lib/Lightnet/Panel/bootloader by which a panel is flashed: the loop of main, handleWriteChunk,
--   loadPage and commitPage.
-- Queues (lib/Lightnet/Core/Common): ByteRing and SpscByteQueue, between an interrupt and the main
--   loop. `Positions` has the arithmetic of the ring that they share. ByteRing/Interleaving splits a
--   pop into its accesses, between which a push, being an interrupt, may run as a whole.
-- Utils (lib/Lightnet/Utils): EntryId, the identifiers of stored scenes and palettes.
--
-- The parts meet in the frames: AnimationScheduler's are read by PacketFramer, and those of the
-- discovery protocol pass from PanelDiscoveryDriver through PanelRouter to DiscoveryCoordinator,
-- which Relay/PanelFrameDispatcher/Handshake follows for one new panel. Panel/LightnetPanel/Play
-- follows AnimationScheduler's frames of a play into the slots of a panel's player.
--
-- How the code is modelled. A class is a record of its members, a method a function from the record
-- and the arguments to the record it leaves, with what it returns. Calls of IEdgeLink::sendOnEdge
-- are returned as the list of `Send` in the order in which they are made, those of IPacketSink as a
-- list of `Command`. Numbers are natural
-- numbers with the wrap-around of their width written out (`u8`, `u16`, `sub32`). Arrays are lists
-- of the array's length; the contents of uninitialised memory are arguments. The clock is an
-- argument, as it is in most of the code; ArqEdgeLink reads it in a loop, whose polls are a list.
-- A PanelSet is the list of its bits. Loops are structural recursions over a list or a
-- count, except these, which take fuel: the loop of resolveSelector takes the length of the program,
-- of which each round consumes at least a byte; the searches of TopologyIndex take the number of
-- panels, since in a tree each panel enters a queue or a stack once (for bfsFromRoot,
-- TopologyIndex/Rounds counts the rounds).
--
-- Not modelled: the transport under ArqEdgeLink and the poll of its bytes in LightnetPanel, the
-- microcontroller's registers, pins and interrupts, debug prints, the rest of the scene engine (its
-- runners and the geometry compute with floating point numbers), storage, the HTTP, MQTT and C
-- interfaces and the simulator.
pub mod Common
pub mod Protocol
pub mod Framing
pub mod Relay
pub mod Queues
pub mod Controller
pub mod Panel
pub mod Utils
