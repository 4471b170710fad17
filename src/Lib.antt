-- ===== src/Lib.antt =====
-- Verification of RootlessKit: running a program in a user namespace with ports exposed from it.
--
-- The parent process keeps the port driver, which is a port manager (`port.Manager`): it adds,
-- lists and removes ports. Clients reach it through a REST API on a socket; tools parse a text
-- such as "127.0.0.1:8080:80/tcp" into a port specification. Parent and child talk in JSON
-- messages with a length in front.
--
-- Base, Text and Net hold what Go's `int`, `string`, `strings`, `strconv` and `net` do, as far as
-- the program uses it: `int` is ℤ, a string is a list of bytes, a `map[int]V` is a Port.Table, a
-- pair of a value and an error is a Result. What net.ParseIP, text/scanner, encoding/json and
-- gorilla's mux do is a parameter, with laws where a theorem needs them.
--
-- Port: pkg/port/port.go. Port.Validate and Port.Parse: pkg/port/portutil/portutil.go.
-- Port.Manager: the interface that the drivers implement and the API uses.
-- Builtin: pkg/port/builtin/parent/parent.go. BuiltinChild: pkg/port/builtin/child/child.go and
-- pkg/port/builtin/msg/msg.go (Message), with the dial and its fallback (Dial).
-- Slirp: pkg/port/slirp4netns/slirp4netns.go.
-- Gvisor: pkg/port/gvisortapvsock/gvisortapvsock.go.
-- Api: pkg/api/router/router.go (Router, Server), pkg/api/client/client.go (Client) and
-- pkg/httputil/httputil.go (Http). Framing: pkg/lowlevelmsgutil/lowlevelmsgutil.go.
--
-- Messages: pkg/messages/messages.go, the messages in these frames. Handshake: the calls of `Parent`
-- (pkg/parent/parent.go) and `Child` (pkg/child/child.go) in their order, and the two processes with
-- their pipes as a step relation (System). A run there is a sequence of steps of either process, in
-- any order; calls can fail. The child's port driver is a goroutine: it can fail at any time after its
-- start. The kernel's grant of capabilities is a parameter.
-- UdpProxy: pkg/port/builtin/parent/udp/udpproxy/udp_proxy.go, datagrams and the ends of reply loops
-- in any order. IpUtils: pkg/network/iputils/iputils.go.
-- DockerProxy: cmd/rootlesskit-docker-proxy/main.go, and RootlessCtl: cmd/rootlessctl/port.go, are
-- clients of the port manager. Spawn: the files and the environment that the parent gives to the
-- child, of pkg/parent/parent.go and pkg/child/child.go.
-- Builtin.Concurrent: the calls of the builtin driver interleaved around its lock, with the sockets
-- that they open and can close at any time, as when `Accept` fails; the system's promise that two
-- sockets do not listen on one address is a premise.
--
-- Calls: functions that make calls of the system. They take the calls made so far and return a result
-- and the calls made then; a Kernel, a parameter, answers each call from those before it. Setup: the
-- calls of pkg/child/child.go: mounts (Sysfs), the network and its files (Net), createCmd with the
-- activation helper of pkg/systemd/activation and cmd/rootlesskit/main.go (Command), and the way of
-- the command's exit code through reap, both processes and pkg/common/exec.go (Reaper).
-- StateDir: the locks, the set-up and the removal of the state directory in pkg/parent/parent.go.
-- CopyUp: pkg/copyup/tmpfssymlink. Cgroup: pkg/parent/cgrouputil. Network: the drivers of
-- pkg/network/slirp4netns, pasta, gvisortapvsock and vpnkit, with pkg/network/parentutils.
--
-- Options: cmd/rootlesskit/main.go, from the flags to the options of the parent and the child.
-- SubId: pkg/parent/idtools/idtools.go, pkg/parent/dynidtools/dynidtools.go (Dynamic), and of
-- pkg/parent/parent.go the choice of the source (Source) and the ID maps (Maps).
--
-- Each operation of a driver is a function from the driver's state to the new state and the result
-- of the call; what the system answers in the call is an argument. Loops are recursion on the list
-- they run over, or on the number of rounds left, and no definition needs fuel. A call is one
-- step, but in Builtin.Concurrent, where it is one step for each part under the lock; elsewhere
-- locks of a process are modelled only where a call returns with one held (Gvisor.Startup). Where
-- processes or goroutines interleave (Handshake, UdpProxy, Builtin.Concurrent), a step relation gives
-- the orders.
-- Not modelled: what sockets, processes, namespaces and mounts do, beyond the answers to the calls
-- that the program makes and whether something is mounted on a path; pkg/network/lxcusernic, the
-- loops that copy bytes and packets, pkg/sigproxy, and the declaration of flags.
pub mod Base
pub mod Text
pub mod Net
pub mod Port
pub mod Builtin
pub mod Slirp
pub mod Gvisor
pub mod Api
pub mod Framing
pub mod Options
pub mod SubId
pub mod BuiltinChild
pub mod Messages
pub mod Handshake
pub mod DockerProxy
pub mod IpUtils
pub mod UdpProxy
pub mod RootlessCtl
pub mod Spawn
pub mod Calls
pub mod Setup
pub mod CopyUp
pub mod Cgroup
pub mod Network
pub mod StateDir
