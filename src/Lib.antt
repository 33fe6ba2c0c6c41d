-- ===== src/Lib.antt =====
-- edgebox is a gateway between the Aliyun IoT hub and a LoRaWAN server. Commands from the hub are
-- queued (src/mqtt.c), turned into Modbus frames for the PLCs behind LoRa nodes, written as hexadecimal
-- text into JSON documents and queued again for a websocket (src/wsclient.c). A thread queries the
-- registers of the PLCs and the sensors of a weather station (src/statusquery.c); the replies come back
-- by the websocket and are published at the hub. The switches and their registers are those of
-- switches.json (src/parse_switch.c).
--
-- Prelude: what the modules share: tests, lists, tables, exclusive or, the integers of C, texts with
--   `strtol`, and the outcome `Run` of code that may exit or do what C leaves undefined.
-- Crc: src/crc.c (modbus_CRC16). Reference is the definition by shifts, Residue the checksum behind a
--   frame, Detection the error of one byte.
-- Hex: hex2ascii and ascii2hex of src/statusquery.c. RoundTrip: one behind the other.
-- Memory: the nodes of both queues on a heap, with the critical sections that both share. Linked: the
--   lists that pointers hold; Leaks: memory with their nodes alone; Pointers: what the sections do with
--   them; Room: free addresses.
-- HubQueue: iothubMsgEnQ, iothubMsgDeQ, iot_msg_handler_thread and handleMsgFromIoThub of
--   src/mqtt.c. Pending: arrivals; Order: each step of the thread keeps the list; Drain: the
--   histories of interleaved steps; Growth and Fairness: the thread comes on however arrivals are
--   interleaved; Logged: the last line of iothubMsgEnQ.
-- WsQueue: eb_ws_msgEnQ, eb_ws_msgDeQ, ws_callback and eb_ws_write of src/wsclient.c. Pushes: each
--   operation on the list; Refinement: the histories, against a list with a front for priority;
--   Lanes: the stack of commands and the queue of the rest; Bursts: the order of commands written in
--   a row; Starvation: how long a text waits; Wakeup: the callback in steps, with writes between
--   them, and the requests for further callbacks (Wakeup/Asks: who sees what waits; Wakeup/Told,
--   Keeps and Safe: the logs of histories; Wakeup/Seen: what is sent; Wakeup/Pace: the waits;
--   Wakeup/Reply: when the next frame is written; Wakeup/Whole: the steps put together again); View
--   and View/Contents: what the pointers stand for.
-- Json: the calls of the JSON library, as a parameter. Sample: a small library to run the code with.
-- Switches: src/parse_switch.c. Lookup: the lists after loading; Names: what names stand for;
--   Loads: loading from its start to its end; Banks:
--   the bounds of the marked registers; Marks: which ones are marked; Free: free_switch_list.
-- StatusQuery: loop_each_lora_each_plc_each_switch of src/statusquery.c. Blocks: the inner loops; Cover:
--   what is asked for; Loaded: the same after the loading of switches.json; Unordered: the order of its
--   elements.
-- Modbus: the frames. Frames: what a device makes of them.
-- Downlink: construct_json_text2lora, run_single_switch_query_command and send_weather_info_request of
--   src/statusquery.c, process_single_iot_hub_msg and run_command_on_lora_node of src/mqtt.c.
--   Documents: the texts, with memory and without; Commands: a message from the hub to the queue.
--   Blocks: the memory that a message takes and gives back; Blocks/Balance and Blocks/Handled: the
--   parts, Blocks/Leaks: the whole.
-- Report: eb_publish and the eb_report functions of src/mqtt.c. Decimals: the numbers in the texts.
-- Uplink: ws_receive_msg and the two parsers of src/wsclient.c. Fields: the numbers in the texts;
--   Weather, Registers and Words: the replies of sensors and of PLCs, with registers of one byte and of
--   two; Words/Faults: replies that cannot be taken; Received: any message; Published and Numbering: what
--   is published for it, and under which identifier.
-- Logger: src/logger.c. Disk: the names and the files; Rotation: what rotation keeps, and its errors;
--   Timestamps: the time and the line of a message.
-- Startup: src/edgebox.c. Nodes: the LoRa nodes of the configuration file; User: the user that the process
--   runs as; Main: main up to its loop, and the rounds of the loop. Main/Reached: when the loop is reached,
--   and what it keeps.
-- Connection: mqtt_conn_init of src/mqtt.c, init_websocket and ws_evloop_run of src/wsclient.c.
--   Outcomes: when the connections are there; Returned: what one that did not fail leaves behind.
-- StatusThread: status_query_thread of src/statusquery.c. Rounds: what it asks for.
-- Gateway: the threads and callbacks together, with both queues. Priority, Stored: what is written and
--   what of it stored; Order: commands from the hub to the websocket; Progress: handling all that has
--   arrived; Drained: sending all; Reports: what is published, before
--   the first connection and behind it; Started: the same once main has come to its loop.
--
-- The target is the ARM of the Makefile: a plain char is unsigned, int and long have 32 bits. Reads and
-- writes outside an object and through NULL are faults; where a fault depends on what the compiler or
-- the allocator leaves behind an object, a parameter says what is there. A failed allocation takes the
-- code's own branch. The scan of registers runs on fuel: each round moves on by a register, there are
-- 1025 of them, and the fuel is 1026. The other loops recur on the list that they go through. A step of a
-- thread is a critical section, or code that touches no shared pointer but for one read of the head.
-- Of the websocket's callback WsQueue/Wakeup takes each stretch for a step; in WsQueue/Refinement and
-- Gateway a callback is one step, at the place where it takes the head off.
-- Endless loops are sequences of rounds, one for each element of a list of what the rounds meet.
--
-- Not modelled: the copies of cJSON, iniparser, the MQTT client, libwebsockets and the signature of
-- the hub, whose calls are parameters; the topic while `mqtt_conn_init` writes it, which is the
-- empty one or the whole; the calls of the logger in other components, which change
-- nothing there (the one that ends iothubMsgEnQ is modelled for what it reads); the waits but for
-- the order of the thread's calls; the freeing of memory other than the nodes of the queues, of a
-- list of switches and of what the handling of a message takes; the counters of the reports past the
-- range of an int.
pub mod Prelude
pub mod Crc
pub mod Hex
pub mod Memory
pub mod HubQueue
pub mod WsQueue
pub mod Json
pub mod Switches
pub mod StatusQuery
pub mod Modbus
pub mod Downlink
pub mod Report
pub mod Uplink
pub mod Logger
pub mod Startup
pub mod Connection
pub mod StatusThread
pub mod Gateway
