-- ===== src/Lib.antt =====
-- Verification of agro_daemon, the daemon of a mesh network of devices.
--
-- Devices report over CoAP; clients speak to the daemon over web sockets in JSON documents. The daemon
-- (`instance`, src/instance) holds the users with their groups, rights and sessions (src/user), the
-- devices (src/device) and the values of their sensors (src/sensor), and stores what lasts in a
-- database (src/db). This library models the parts that decide who may do what, and the data
-- structures of devices and sensors.
--
-- Base           equality tests, lists, maps (`std::map` as a list of entries in the order in which they
--                were added), bits.
-- User           src/user. Group: `Group`, `Groups` of group.cpp. Rule, Policy: `rule` and `Policies`
--                of policy.cpp. Session, Subscription: the lists of the same name of user.cpp.
--                Account: `Info`, `User`, `Logged`, `can`. UserList: `User_List` of list.cpp.
-- Message        src/message. Types: the tables of types and of commands. Json: what is asked of a
--                document of RapidJSON, a parameter. User, User/Commands: the handlers of user.cpp.
-- Instance       src/instance. Db: the calls of the database, a parameter. Users: user.cpp.
--                Auth: authenticate.cpp. Push: the subscriptions of notify.cpp.
--                Readings: `update_sensor_value` of sensor.cpp. Network: tree.cpp and check_root.cpp.
--                Devices: device.cpp.
-- Device         src/device. Mac: `mesh_addr_t` and `string_to_mac`. InProgress: the list of requests
--                in progress of request/in_progress.cpp. Packets: the apps and jobs of
--                types.hpp. State: `Device` of device.cpp. Lists: `Device_List` and `Net_List` of
--                list.cpp and net.cpp. AppList: `read_packet_app_list` of helper.cpp.
--                Tree, Tree/Branches, Tree/Roots, Tree/Update: `Tree` of tree.cpp, its nodes behind
--                pointers. Request: the requests of request/. Request/Payload: what they send.
--                Request/Config: their table. Request/Send, Request/Process: request.cpp.
--                Request/Response, Request/Respond: the handlers of the answers.
--                Resource: the payloads of resources/, its types.hpp and process.cpp.
--                Resource/Process: what becomes of them, and the handlers that take them.
--                Resource/Blocks: apps and images in blocks, of app.cpp and ota.cpp.
-- Sensor         src/sensor. Values: `Value_List`. Series: `Sensor_List`. Kinds: `Sensor_Type_List`.
--
-- A method is a function of its object that returns the result with the object that it leaves. Names
-- follow the source; where one name has several overloads, the comment at the definition says which it
-- is. A module below a component proves what its name says of it.
--
-- Numbers. Ids and other `int`s that are only compared are natural numbers, a negative one by its
-- 32-bit pattern. Bytes of an address are numbers whose shifts and decrements wrap at 256; the theorems
-- on the text form assume that they are below 256. Times are seconds that only grow by addition.
--
-- Termination. A loop over a list is a recursion on that list, and one over the packets of a payload a
-- recursion on the number of rounds that the size of the payload gives. Only the walks along the
-- pointers of Device/Tree take fuel, since they need not end: `none` says that a walk does not return
-- within it. Where the pointers lead through a forest, fuel of the number of its places is enough, or
-- one more.
--
-- Undefined behaviour is a value. `fault` of Instance/Auth.antt and of Message/User.antt is a read of a
-- missing text or number or a null pointer followed, `none` of `string_to_mac` is a write past the
-- address, and `none` of `set_jobs` and of `read_packet_app_list` is a read past the payload. `bad_access` of a
-- payload that is written for a device is a read past a text or a write past the buffer. A pointer to a user is the id of the user; that it dangles is seen as long as no new user has the id.
-- A pointer to a node of the tree is the address under which the node stands, or the root.
--
-- Parameters. SQLite (Instance/Db.antt), the files of apps and images, RapidJSON (Message/Json.antt),
-- the endpoint type of the CoAP library and its options of blocks, the key derivation and the random
-- bytes of OpenSSL, and the clock are arguments. What a theorem needs of them it has as a hypothesis.
-- The packets of jobs, apps and readings are read as a host with the low byte first reads them.
--
-- The CoAP engine. A request that it takes is a transaction until the engine calls its callback, which
-- it does once; the numbers of the CoAP methods, the size of a packet and whether the engine takes a
-- request are arguments. What a request does beside its place in the list of those in progress is a
-- list of calls, in their order. The bytes of a text and the memory behind it are arguments as well.
--
-- Not modelled: the handlers of messages about devices, sensors and notifications; the CoAP resources
-- that take jobs, infos and reports or give the time; notifications, files of images and apps and the
-- web socket server, which are input and output; the libraries under src/libs. The notification
-- settings of a user are left out of its record.
pub mod Base
pub mod User
pub mod Message
pub mod Instance
pub mod Device
pub mod Sensor
pub mod Tests
