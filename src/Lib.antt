-- ===== src/Lib.antt =====
-- docker-compose-seckill_server: a flash sale over gRPC, with Redis as the fast store of the
-- stock and MySQL as the durable one (GRPC/src). A request travels from the completion queue to
-- a worker, the worker checks the user, reserves an item in Redis with WATCH, MULTI and EXEC,
-- and records the order in a MySQL transaction.
--
--  file                      source                            model
--  Base, Base/*              (the language)                    Boolean tests, lists, C texts, atoi, to_string
--  Services                  (hiredis, libmysqlclient, gRPC)   the library calls, as a record of functions
--  MysqlPool                 GRPC/src/mysqlpool.cc, .h         the queue, the counter and the limit
--  RedisPool                 GRPC/src/redispool.cc, .h         the same for Redis
--  MysqlPool/Queue, RedisPool/Queue  (the same files)          poolFront, poolSize, poolPop and the loops as written
--  Machine/Monad             GRPC/src/Worker.h                 the state of the process, faults, the monad
--  Machine/Calls             GRPC/src/Worker.cc                calls on that state, NULL and overflow as faults
--  Machine/Execute           GRPC/src/mysqlpool.cc             executeSql
--  Worker/Check              GRPC/src/Worker.cc                checkUserInfo, checkUserHasGot and their _mysql forms
--  Worker/Order              GRPC/src/Worker.cc                seckillGoods_mysql
--  Worker/Goods              GRPC/src/Worker.cc                seckillGoods
--  Worker/Proceed            GRPC/src/Worker.cc                the constructor and Proceed
--  Md5/*                     GRPC/src/Md5.cc, Md5.h            class MD5
--  Server/Prepare            GRPC/src/seckill_server.cc        prepareForSeckill
--  Server/Serve              GRPC/src/seckill_server.cc        HandleRPCS, Run, main
--  Client/*                  GRPC/src/seckill_client.cc        test data, a client thread, checkSeckillInfo
--
-- Code that touches the state of the process is a function from a Machine to an Outcome: a value
-- with the next Machine, or a fault where the process stops or its behaviour is undefined.
-- Members and functions keep their names, in lower case with underscores. The heap of Worker
-- objects is the field workers, and the object that this points to is self; Proceed loads it,
-- runs the branch of its status and stores or deletes it. The members failedCount_, successNum_
-- and rwlock_, which all workers share, are fields of the Machine.
--
-- The libraries are not in the repository but for their headers: Services has one function for
-- each call, on an abstract World that holds the servers' state. Theorems hold for all of them,
-- unless they name laws: GoodsDb in Worker/Stock.antt says what the transaction needs of MySQL.
-- A commit may fail there, and a text with a quote in it may add any number of rows.
-- Worker/Shop/Laws says which calls leave the tables alone. Machine/Quiet/Keep names what code
-- leaves alone as a frame, and Worker/Keep, Worker/Local and Server/Keep collect the code that
-- keeps every frame; Worker/Ending goes through seckillGoods and the middle of Proceed once, for
-- every relation between before and after. Worker/Verdict, Worker/Answer and Worker/Life follow
-- so what a worker does to the shared members, Worker/Users compares the two checks of a key,
-- Worker/Admission says who gets through to the goods, Worker/Counters has the shared counters
-- as steps of threads, Worker/Trade what the transaction does to the tables, Worker/Shop and
-- Server/Trading what all of it does to the goods as an abstract shop, and Worker/Answered how
-- that is answered; MysqlPool/Limit, MysqlPool/Ping, MysqlPool/Singleton, MysqlPool/Apart,
-- RedisPool/Limit and RedisPool/Apart are about the pools; Server/Loop and Server/Gate are about
-- the loop of HandleRPCS, Worker/Lends, Server/Lends and Server/Limit about the connections to
-- MySQL that Proceed and prepareForSeckill take, Server/Registration about the text that
-- registers users, Client/Duplicates and Client/Dangling about the check of the orders,
-- Client/Threads and Client/Keys about the requests, Worker/Stops about null connections and
-- quoting, Md5/Mask, Md5/Low, Md5/Rfc and Md5/Compress about the lower halves of 64-bit words,
-- Md5/Blocks, Md5/Update, Md5/Digest, Md5/Padded, Md5/Rfc1321 and Md5/Reference about the digest
-- of a text as a whole, Md5/Disjoint about the words as four bytes, Md5/Hex about the text of a
-- digest, Md5/Digits about its size, Md5/Carry about texts that are too long; Tests runs a pair
-- of example servers.
--
-- Machine/Quiet has the reasoning for code that may fault: Ensures says that a result is right
-- if there is one and that the attempts never run out. Machine/Returns has the total form.
--
-- Bounds: a loop over the rows of a result takes fuel, since the server decides how many rows
-- there are; on a GoodsDb two rounds are enough for the stock, which the theorems about it
-- prove. seckillGoods is recursion on the attempts left, at most RETRYCOUNT, and never runs out.
-- A word of unsigned int or unsigned long wraps as written out; int overflows are faults. The
-- theorems about digests are for texts of less than 2^29 - 72 bytes, whose bits a word of 32 can
-- count.
--
-- Not modelled: output on cout and cerr, the set-up of the gRPC channel and server, the
-- generated code of GRPC/proto, and the interleaving of threads inside one call of Proceed (only
-- MysqlPool/Singleton and Worker/Counters have threads).
pub mod Base
pub mod Services
pub mod MysqlPool
pub mod RedisPool
pub mod Machine
pub mod Worker
pub mod Md5
pub mod Server
pub mod Client
pub mod Tests
